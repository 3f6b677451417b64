-- ===== src/Router/Server/Ended.antt =====
-- The end of the stream in the middle of a command.
use cs.Base.{
  ℕ, zero, suc, ◌+◌, ◌-◌, ◌≤◌, ◌<◌, ◌≡◌, List, [], ◌∷◌, ◌++◌, length, length-append, replicate, ltb,
  false, le→leb, lt→leb, arith, done, ◌>>=◌,
}
use mathlib.Core.List.{append_assoc, append-nil}
use cs.Bytes.{word_at, of_bytes, htonl}
use cs.Router.Server.{
  Answer, bytes, interrupted, waiting, fill, never, max_command, take_head, read_command,
}
use cs.Router.Server.Framing.{Pieces, fill-Pieces}

-- Reads that gave the bytes `cs`, with interrupts in between.
pub data Started : List Answer → List ℕ → Type 0 where
  nothing_yet : Started [] []
  some_bytes :
      {reads : List Answer} {cs : List ℕ} (bs : List ℕ)
      → Started reads cs
      → Started (bytes bs ∷ reads) (bs ++ cs)
  caught : {reads : List Answer} {cs : List ℕ} → Started reads cs → Started (interrupted ∷ reads) cs

-- Reads that stop before a command is whole, in its length or behind it.
pub data Cut : List Answer → Type 0 where
  in_head : {reads : List Answer} {cs : List ℕ} → Started reads cs → length cs < 4 → Cut reads
  in_body :
      {heads reads : List Answer} {cs : List ℕ} (head : List ℕ) (len : ℕ)
      → Pieces heads head
      → length head ≡ 4
      → htonl (word_at (of_bytes head) 0) ≡ len
      → 4 ≤ len
      → len ≤ max_command
      → Started reads cs
      → length cs < len - 4
      → Cut (heads ++ reads)

fill-hung_up :
    (want : ℕ) (got : List ℕ) (n : ℕ)
    → length got < want
    → fill want got (replicate n (bytes [])) ≡ done waiting
unfolding fill
fill-hung_up want got zero h = rw (lt→leb want (length got) h)
fill-hung_up want got (suc n) h =
    rw (lt→leb want (length got) h, le→leb (length got + 0) want (omega arith), append-nil got)
      (fill-hung_up want got n h)

fill-Started :
    (want : ℕ) (got : List ℕ) (n : ℕ) {reads : List Answer} {cs : List ℕ}
    → Started reads cs
    → length got + length cs < want
    → fill want got (reads ++ replicate n (bytes [])) ≡ done waiting
unfolding fill
fill-Started want got n nothing_yet h = fill-hung_up want got n (omega arith)
fill-Started want got n (some_bytes {cs = ds} bs p) h =
    let b = length-append bs ds in
    rw (lt→leb want (length got) (omega arith), le→leb (length got + length bs) want (omega arith))
      (fill-Started want (got ++ bs) n p (omega (arith, length-append got bs)))
fill-Started want got n (caught p) h =
    rw (lt→leb want (length got) (omega arith)) (fill-Started want got n p h)

-- When the server closes the stream before a command is whole, every further read gives nothing, and
-- `sr_read_from_server_expect` reads on: it does not return, however often it has read.
pub read_command-Cut :
    (junk : ℕ → ℕ) (n : ℕ) {reads : List Answer}
    → Cut reads
    → read_command junk (reads ++ replicate n (bytes [])) ≡ done never
unfolding read_command take_head ◌>>=◌
read_command-Cut junk n {reads} (in_head p h) = rw (fill-Started 4 [] n p (omega arith))
read_command-Cut junk n (in_body {heads} {reads} head len q four field long few p h) =
    let small : ltb max_command len ≡ false = ground arith in
    let eofs = replicate n (bytes []) in
    rw (
      append_assoc heads reads eofs,
      fill-Pieces 4 [] (reads ++ eofs) q (omega arith),
      le→leb 4 (length head) (omega arith),
      field,
      small,
      le→leb 4 len (omega arith),
      fill-Started (len - 4) [] n p (omega arith),
    )
