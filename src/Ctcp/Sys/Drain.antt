-- ===== src/Ctcp/Sys/Drain.antt =====
-- `conn_drain` of ctcp_sys_internal.c without the call of `ctcp_output` at its end, which Ctcp/Output models: the output queue goes
-- out as far as `write` takes it. The answers of
-- `write` are a list, one for each call; behind its end there is no room.
use mathlib.Core.List.{append-nil, append_assoc}
use cs.Base.{
  ℕ, zero, suc, ◌+◌, ◌-◌, ◌<◌, ◌≤◌, ◌≡◌, lt→ltb, refl, ap, sym, ◌∙◌, List, [], ◌∷◌, ◌++◌, Bool,
  true, false, not, ltb, ◌&&◌, if◌then◌else◌, length, take, arith, Bool-cases, inl, inr,
}
use cs.Ctcp.Sys.Queue.{
  Wrote, count, again, failed, Writer, Chunk, Conn, drop, pending, is_empty, handed, take-drop,
}

-- The loop's result: what was written, the queue that is left, whether the event loop is to wait, whether
-- `write` failed, and whether anything was output.
pub record Drained : Type 0 where
  pub wrote : List ℕ
  pub queue : List Chunk
  pub waits : Bool
  pub error : Bool
  pub outputted : Bool

abbrev pub stopped : List Chunk → Bool → Drained
stopped queue error = record {
  wrote = [];
  queue = queue;
  waits = false;
  error = error;
  outputted = false;
}

-- `chunk->used += w`
abbrev pub advance : Chunk → ℕ → Chunk
advance c n = record c { used = c.used + n }

abbrev pub more : List ℕ → Drained → Drained
more bytes d = record d { wrote = bytes ++ d.wrote; outputted = true }

-- After a write of `n` bytes; `rest` is what the next rounds do.
abbrev pub drain_chunk : Chunk → ℕ → List Chunk → Drained → Drained
drain_chunk c n cs rest =
    if ltb (c.used + n) (length c.buf)
    then record {
      wrote = take n (drop c.used c.buf);
      queue = advance c n ∷ cs;
      waits = true;
      error = false;
      outputted = true;
    }
    else more (take n (drop c.used c.buf)) rest

abbrev pub drain_by : Chunk → List Chunk → Wrote → Drained → Drained
drain_by c cs (count n) rest = drain_chunk c n cs rest
drain_by c cs again rest = stopped (c ∷ cs) false
drain_by c cs failed rest = stopped (c ∷ cs) true

unfoldable pub drain_loop : List Writer → List Chunk → Drained
drain_loop writes [] = stopped [] false
drain_loop [] (c ∷ cs) = stopped (c ∷ cs) false
drain_loop (write ∷ writes) (c ∷ cs) =
    drain_by c cs (write (length c.buf - c.used)) (drain_loop writes cs)

-- `conn_drain` up to its last statement: the connection, and whether that statement calls `ctcp_output`.
unfoldable pub drain_queue : Conn → List Writer → Conn × Bool
unfolding drain_loop
drain_queue c writes =
    if c.wrote_err
    then (record c { pollout = false }, false)
    else let d = drain_loop writes c.out_queue in
      (
        record c {
          out_queue = d.queue;
          pollout = d.waits;
          written = c.written ++ d.wrote;
          wrote_err = if d.error then true else c.wrote_eof && is_empty d.queue;
        },
        d.outputted && not c.delete_me,
      )

drop-drop : (m n : ℕ) (xs : List ℕ) → drop (m + n) xs ≡ drop n (drop m xs)
drop-drop zero n xs = let e : 0 + n ≡ n = omega arith in rw e refl
drop-drop (suc m) zero [] = let e : suc m + 0 ≡ suc m = omega arith in rw e refl
drop-drop (suc m) (suc n) [] = let e : suc m + suc n ≡ suc (m + suc n) = omega arith in rw e refl
drop-drop (suc m) n (x ∷ xs) =
    let e : suc m + n ≡ suc (m + n) = omega arith in rw e (drop-drop m n xs)

take_long : (n : ℕ) (xs : List ℕ) → length xs ≤ n → take n xs ≡ xs
take_long zero [] h = refl
take_long zero (x ∷ xs) h = absurd (omega arith)
take_long (suc n) [] h = refl
take_long (suc n) (x ∷ xs) h = ap (λ l. x ∷ l) (take_long n xs (omega arith))

length-drop : (n : ℕ) (xs : List ℕ) → length (drop n xs) ≡ length xs - n
length-drop zero xs = omega arith
length-drop (suc n) [] = omega arith
length-drop (suc n) (x ∷ xs) = omega (arith, length-drop n xs)

-- What is written and what is left make up the queue.
abbrev Splits : List Chunk → Drained → Type 0
Splits q d = d.wrote ++ pending d.queue ≡ pending q

drain_chunk-Splits :
    (c : Chunk) (n : ℕ) (cs : List Chunk) (d : Drained)
    → Splits cs d
    → Splits (c ∷ cs) (drain_chunk c n cs d)
drain_chunk-Splits c n cs d k = elim (Bool-cases (ltb (c.used + n) (length c.buf))) [
  | inl part ↦ rw part (
      sym (append_assoc (take n (drop c.used c.buf)) (drop (c.used + n) c.buf) (pending cs))
      ∙ ap (λ (l : List ℕ). l ++ pending cs)
          (ap (λ (l : List ℕ). take n (drop c.used c.buf) ++ l) (drop-drop c.used n c.buf)
            ∙ take-drop n (drop c.used c.buf)))
  | inr whole ↦
      let long : c.used + n < length c.buf → ⊥ =
        λ h. cc (whole, lt→ltb (c.used + n) (length c.buf) h) in
      rw whole (
        append_assoc (take n (drop c.used c.buf)) d.wrote (pending d.queue)
        ∙ ap (λ (l : List ℕ). take n (drop c.used c.buf) ++ l) k
        ∙ ap (λ (l : List ℕ). l ++ pending cs)
            (take_long n (drop c.used c.buf) (omega (arith, length-drop c.used c.buf, long))))
]

drain_by-Splits :
    (c : Chunk) (cs : List Chunk) (w : Wrote) (d : Drained)
    → Splits cs d
    → Splits (c ∷ cs) (drain_by c cs w d)
drain_by-Splits c cs (count n) d k = drain_chunk-Splits c n cs d k
drain_by-Splits c cs again d k = refl
drain_by-Splits c cs failed d k = refl

drain_loop-Splits : (writes : List Writer) (q : List Chunk) → Splits q (drain_loop writes q)
unfolding drain_loop
drain_loop-Splits writes [] = refl
drain_loop-Splits [] (c ∷ cs) = refl
drain_loop-Splits (write ∷ writes) (c ∷ cs) =
    drain_by-Splits c cs (write (length c.buf - c.used)) (drain_loop writes cs)
      (drain_loop-Splits writes cs)

-- Up to its call of `ctcp_output`, `conn_drain` moves bytes from the queue to the output: what was written, followed by what
-- is left in the queue, is what it was before, however much each `write` takes and wherever the loop stops;
-- and what was written stays written.
pub drain_queue-handed :
    (c : Conn) (writes : List Writer)
    → (handed (drain_queue c writes).0 ≡ handed c)
      × (out : List ℕ) × ((drain_queue c writes).0.written ≡ c.written ++ out)
unfolding drain_queue
drain_queue-handed c writes = elim (Bool-cases c.wrote_err) [
  | inl bad ↦ simp bad (refl, [], sym (append-nil c.written))
  | inr fine ↦
      let d = drain_loop writes c.out_queue in
      simp fine (
        append_assoc c.written d.wrote (pending d.queue)
            ∙ ap (λ (l : List ℕ). c.written ++ l) (drain_loop-Splits writes c.out_queue),
        d.wrote,
        refl,
      )
]
