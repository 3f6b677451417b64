-- ===== src/Ctcp/Sys/Queue.antt =====
-- The output queue of a connection: `conn_bufspace`, `conn_output` and `conn_remove` of
-- ctcp_sys_internal.c. The kernel's `write` is an argument, its answer to a request of a given size.
use mathlib.Core.List.{append-nil, append_assoc}
use cs.Base.{
  ℕ, zero, suc, ◌+◌, ◌-◌, ◌≤◌, ◌≡◌, ◌⊎◌, refl, ap, sym, ◌∙◌, List, [], ◌∷◌, ◌++◌, Bool, true, false,
  not, ltb, ◌==◌, if◌then◌else◌, length, take, Bool-cases, inl, inr, if-both, Run, done, require,
  ◌>>=◌, ◌>>◌,
}

-- What `write` answers: a number of bytes, -1 with EAGAIN, or -1 with another error.
pub data Wrote : Type 0 where
  count : ℕ → Wrote
  again : Wrote
  failed : Wrote

abbrev pub Writer : Type 0
Writer = ℕ → Wrote

-- `write` takes at most what it is given.
abbrev pub IsWriter : Writer → Type 0
IsWriter w = (size n : ℕ) → w size ≡ count n → n ≤ size

-- chunk_t. `size` is the length of `buf`.
pub record Chunk : Type 0 where
  pub buf : List ℕ
  pub used : ℕ

-- The part of conn_t that output uses; `written` is what `write` has taken, and `pollout` whether the
-- event loop waits for room.
pub record Conn : Type 0 where
  pub wrote_eof : Bool
  pub wrote_err : Bool
  pub delete_me : Bool
  pub out_queue : List Chunk
  pub pollout : Bool
  pub written : List ℕ

abbrev pub max_buf_space : ℕ
max_buf_space = 8192

abbrev pub drop : ℕ → List ℕ → List ℕ
drop zero xs = xs
drop (suc n) [] = []
drop (suc n) (x ∷ xs) = drop n xs

abbrev pub queue_used : List Chunk → ℕ
queue_used [] = 0
queue_used (c ∷ cs) = length c.buf - c.used + queue_used cs

unfoldable pub conn_bufspace : Conn → ℕ
conn_bufspace c =
    let used = queue_used c.out_queue in if ltb max_buf_space used then 0 else max_buf_space - used

-- The result of `conn_output`: a number of bytes, or -1.
pub data Result : Type 0 where
  reported : ℕ → Result
  minus_one : Result

abbrev pub queue_rest : List Chunk → List ℕ → List Chunk
queue_rest queue [] = queue
queue_rest queue (x ∷ xs) = queue ++ record { buf = x ∷ xs; used = 0 } ∷ []

abbrev pub is_empty : List Chunk → Bool
is_empty [] = true
is_empty (c ∷ cs) = false

-- What is left goes into the queue, and the event loop waits when the queue is not empty.
abbrev pub put_rest : Conn → List ℕ → Conn
put_rest c left =
    let queue = queue_rest c.out_queue left in
    record c { out_queue = queue; pollout = if is_empty queue then c.pollout else true }

abbrev pub write_now : Conn → List ℕ → Wrote → Conn × Result
write_now c buf (count n) =
    (put_rest (record c { written = c.written ++ take n buf }) (drop n buf), reported (length buf))
write_now c buf again = (put_rest c buf, reported (length buf))
write_now c buf failed = (record c { wrote_err = true }, minus_one)

unfoldable pub conn_output_by : Conn → List ℕ → Writer → Conn × Result
unfolding conn_bufspace
conn_output_by c buf write =
    if c.wrote_eof
    then (c, reported 0)
    else if length buf == 0
    then (record c { wrote_eof = true }, reported 0)
    else if c.wrote_err
    then (c, minus_one)
    else if conn_bufspace c == 0
    then (c, reported 0)
    else if is_empty c.out_queue
    then write_now c buf (write (length buf))
    else (put_rest c buf, reported (length buf))

-- A connection that is to be deleted fails the assertion.
unfoldable pub conn_output : Conn → List ℕ → Writer → Run (Conn × Result)
unfolding conn_output_by
conn_output c buf write = do require (not c.delete_me); done (conn_output_by c buf write)

unfoldable pub conn_remove : Conn → Conn
conn_remove c = record c { delete_me = true }

-- What waits in the queue, and all that was handed to the connection.
abbrev pub pending : List Chunk → List ℕ
pending [] = []
pending (c ∷ cs) = drop c.used c.buf ++ pending cs

abbrev pub handed : Conn → List ℕ
handed c = c.written ++ pending c.out_queue

abbrev pub amount : Result → ℕ
amount (reported n) = n
amount minus_one = 0

pub take-drop : (n : ℕ) (xs : List ℕ) → take n xs ++ drop n xs ≡ xs
take-drop zero xs = refl
take-drop (suc n) [] = refl
take-drop (suc n) (x ∷ xs) = ap (λ l. x ∷ l) (take-drop n xs)

pub take_all : (xs : List ℕ) → take (length xs) xs ≡ xs
take_all [] = refl
take_all (x ∷ xs) = ap (λ l. x ∷ l) (take_all xs)

pub pending-append : (q r : List Chunk) → pending (q ++ r) ≡ pending q ++ pending r
pending-append [] r = refl
pending-append (c ∷ q) r =
    ap (λ l. drop c.used c.buf ++ l) (pending-append q r)
    ∙ sym (append_assoc (drop c.used c.buf) (pending q) (pending r))

pending-queue_rest : (q : List Chunk) (xs : List ℕ) → pending (queue_rest q xs) ≡ pending q ++ xs
pending-queue_rest q [] = sym (append-nil (pending q))
pending-queue_rest q (x ∷ xs) =
    pending-append q (record { buf = x ∷ xs; used = 0 } ∷ [])
    ∙ ap (λ l. pending q ++ l) (append-nil (x ∷ xs))

put_rest-handed : (c : Conn) (xs : List ℕ) → handed (put_rest c xs) ≡ handed c ++ xs
put_rest-handed c xs =
    ap (λ l. c.written ++ l) (pending-queue_rest c.out_queue xs)
    ∙ sym (append_assoc c.written (pending c.out_queue) xs)

written-take :
    (q : List Chunk) (written : List ℕ) (n : ℕ) (buf : List ℕ)
    → is_empty q ≡ true
    → ((written ++ take n buf) ++ pending q) ++ drop n buf ≡ (written ++ pending q) ++ buf
written-take [] written n buf e =
    rw (append-nil (written ++ take n buf), append-nil written)
      (append_assoc written (take n buf) (drop n buf) ∙ ap (λ l. written ++ l) (take-drop n buf))
written-take (c ∷ q) written n buf e = cc

-- What a call leaves: what was handed over before is followed by as many bytes of the buffer as the call
-- reports, none or all.
abbrev pub Keeps : Conn → List ℕ → Conn × Result → Type 0
Keeps c buf (c', r) =
    (handed c' ≡ handed c ++ take (amount r) buf) × ((amount r ≡ 0) ⊎ (amount r ≡ length buf))

Keeps-none :
    (c c' : Conn) (buf : List ℕ) (r : Result)
    → amount r ≡ 0
    → handed c' ≡ handed c
    → Keeps c buf (c', r)
Keeps-none c c' buf r e k =
    (k ∙ sym (append-nil (handed c)) ∙ ap (λ n. handed c ++ take n buf) (sym e), inl e)

Keeps-all :
    (c c' : Conn) (buf : List ℕ)
    → handed c' ≡ handed c ++ buf
    → Keeps c buf (c', reported (length buf))
Keeps-all c c' buf k = (k ∙ ap (λ l. handed c ++ l) (sym (take_all buf)), inr refl)

-- The queue is empty.
write_now-Keeps :
    (c : Conn) (buf : List ℕ) (w : Wrote)
    → is_empty c.out_queue ≡ true
    → Keeps c buf (write_now c buf w)
write_now-Keeps c buf (count n) e =
    let c' : Conn = record c { written = c.written ++ take n buf } in
    Keeps-all c (put_rest c' (drop n buf)) buf
      (put_rest-handed c' (drop n buf) ∙ written-take c.out_queue c.written n buf e)
write_now-Keeps c buf again e = Keeps-all c (put_rest c buf) buf (put_rest-handed c buf)
write_now-Keeps c buf failed e =
    Keeps-none c (record c { wrote_err = true }) buf minus_one refl refl

pub conn_output-live :
    (c : Conn) (buf : List ℕ) (write : Writer)
    → c.delete_me ≡ false
    → conn_output c buf write ≡ done (conn_output_by c buf write)
unfolding conn_output ◌>>=◌ ◌>>◌
conn_output-live c buf write live = simp live

-- After a call of conn_output on a connection that is not to be deleted, what was handed over before,
-- whether written or in the queue, is followed by as many bytes of the buffer as the call reports, and these
-- are none or all: whatever `write` answers, no byte is lost, repeated or put out of order.
pub conn_output-Keeps :
    (c : Conn) (buf : List ℕ) (write : Writer)
    → c.delete_me ≡ false
    → (p : Conn × Result) × (conn_output c buf write ≡ done p) × Keeps c buf p
unfolding conn_output_by
conn_output-Keeps c buf write live =
    let K = Keeps c buf in
    (
      conn_output_by c buf write,
      conn_output-live c buf write live,
      if-both K c.wrote_eof (Keeps-none c c buf (reported 0) refl refl) (
          if-both K (length buf == 0)
            (Keeps-none c (record c { wrote_eof = true }) buf (reported 0) refl refl)
            (if-both K c.wrote_err (Keeps-none c c buf minus_one refl refl) (
              if-both K (conn_bufspace c == 0) (Keeps-none c c buf (reported 0) refl refl)
                (elim (Bool-cases (is_empty c.out_queue)) [
                  | inl e ↦ rw e (write_now-Keeps c buf (write (length buf)) e)
                  | inr e ↦ rw e (Keeps-all c (put_rest c buf) buf (put_rest-handed c buf))
                ])))),
    )
