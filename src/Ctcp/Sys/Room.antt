-- ===== src/Ctcp/Sys/Room.antt =====
-- `conn_bufspace` and `conn_output` of ctcp_sys_internal.c: how much the queue takes.
use cs.Base.{
  ℕ, zero, suc, ◌+◌, ◌≤◌, ◌<◌, ◌≡◌, ◌≢◌, refl, ap, ◌∙◌, List, [], ◌∷◌, ◌++◌, false, ◌==◌, length,
  arith, Bool-cases, inl, inr, done,
}
use cs.Ctcp.Sys.Queue.{
  Wrote, count, again, failed, Writer, Chunk, Conn, max_buf_space, drop, queue_used, conn_bufspace,
  Result, reported, queue_rest, is_empty, write_now, conn_output_by, conn_output, conn_output-live,
}

queue_used-append : (q r : List Chunk) → queue_used (q ++ r) ≡ queue_used q + queue_used r
queue_used-append [] r = omega arith
queue_used-append (c ∷ q) r = omega (arith, queue_used-append q r)

queue_used-queue_rest :
    (q : List Chunk) (xs : List ℕ) → queue_used (queue_rest q xs) ≡ queue_used q + length xs
queue_used-queue_rest q [] = omega arith
queue_used-queue_rest q (x ∷ xs) =
    omega (arith, queue_used-append q (record { buf = x ∷ xs; used = 0 } ∷ []))

length-drop : (n : ℕ) (xs : List ℕ) → length (drop n xs) ≤ length xs
length-drop zero xs = omega arith
length-drop (suc n) [] = omega arith
length-drop (suc n) (x ∷ xs) = omega (arith, length-drop n xs)

-- What a call of `conn_output` that is not an error leaves in the queue.
abbrev Fits : Conn → List ℕ → Conn × Result → Type 0
Fits c buf (c', r) =
    (r ≡ reported (length buf)) × (queue_used c'.out_queue ≤ queue_used c.out_queue + length buf)

write_now-Fits : (c : Conn) (buf : List ℕ) (w : Wrote) → w ≢ failed → Fits c buf (write_now c buf w)
write_now-Fits c buf (count n) ok =
    (refl, omega (arith, queue_used-queue_rest c.out_queue (drop n buf), length-drop n buf))
write_now-Fits c buf again ok = (refl, omega (arith, queue_used-queue_rest c.out_queue buf))
write_now-Fits c buf failed ok = absurd (ok refl)

bufspace-le :
    (c : Conn) → 0 < conn_bufspace c → conn_bufspace c + queue_used c.out_queue ≡ max_buf_space
unfolding conn_bufspace
bufspace-le c h = ground arith

conn_output_by-Fits :
    (c : Conn) (buf : List ℕ) (write : Writer)
    → c.wrote_eof ≡ false
    → c.wrote_err ≡ false
    → 0 < length buf
    → length buf ≤ conn_bufspace c
    → write (length buf) ≢ failed
    → Fits c buf (conn_output_by c buf write)
unfolding conn_output_by
conn_output_by-Fits c buf write open_yet fine more room ok =
    let some_bytes : (length buf == 0) ≡ false = ground arith in
    let some_room : (conn_bufspace c == 0) ≡ false = ground arith in
    elim (Bool-cases (is_empty c.out_queue)) [
      | inl e ↦
          simp (open_yet, some_bytes, fine, some_room, e)
            (write_now-Fits c buf (write (length buf)) ok)
      | inr e ↦
          simp (open_yet, some_bytes, fine, some_room, e)
            (refl, omega (arith, queue_used-queue_rest c.out_queue buf))
    ]

-- On an open connection conn_output takes all of a buffer that is not empty and not longer than what
-- conn_bufspace reports, and the queue then holds at most 8192 bytes, unless `write` fails for another
-- reason than a lack of room.
pub conn_output-bufspace :
    (c : Conn) (buf : List ℕ) (write : Writer)
    → c.delete_me ≡ false
    → c.wrote_eof ≡ false
    → c.wrote_err ≡ false
    → 0 < length buf
    → length buf ≤ conn_bufspace c
    → write (length buf) ≢ failed
    → (c' : Conn) × (conn_output c buf write ≡ done (c', reported (length buf)))
      × (queue_used c'.out_queue ≤ max_buf_space)
conn_output-bufspace c buf write live open_yet fine more room ok =
    let (r, k) = conn_output_by-Fits c buf write open_yet fine more room ok in
    (
      (conn_output_by c buf write).0,
      conn_output-live c buf write live
          ∙ ap (λ (x : Result). done ((conn_output_by c buf write).0, x)) r,
      omega (arith, k, bufspace-le c (omega arith)),
    )
