-- ===== src/Ctcp/Read/Examples.antt =====
-- `ctcp_read` of ctcp.c on two bytes and then one, at the start of a connection.
use cs.Base.{
  ℕ, ◌+◌, ◌%◌, ◌^◌, ◌<◌, ◌≡◌, refl, List, [], ◌∷◌, ◌++◌, true, none, some, arith, All, done,
}
use cs.Bytes.{Buf}
use cs.Ctcp.Session.{ctcp_init}
use cs.Ctcp.Read.{Input, got, nothing, Reader, next_seqno, ctcp_read}
use cs.Ctcp.Read.Cut.{IsChunk, Carries, Starts}
use cs.Ctcp.Read.Outgoing.{IsOutgoing, IsFrame, ctcp_read-IsSent}

abbrev counting : ℕ → ℕ
counting i = i % 256

abbrev ample : List ℕ → ℕ
ample out = 2 ^ 31

abbrev junk : ℕ → ℕ
junk i = 170

-- The bytes of the stream from number `p`.
abbrev chunk : ℕ → ℕ → Buf
chunk p n = record { len = n; at = λ j. (p + j) % 256 }

abbrev inputs : List Input
inputs = got (chunk 1 2) ∷ got (chunk 3 1) ∷ nothing ∷ []

chunk-IsChunk : (p n : ℕ) → 0 < n → n < 1441 → 0 < p → p < 2 ^ 20 → IsChunk counting p (chunk p n)
chunk-IsChunk p n more few first low = record {
  bytes = λ i. omega arith;
  some_bytes = more;
  few = omega arith;
  first = omega arith;
  bound = omega arith;
  same = λ j h. refl;
}

inputs-Carries : Carries counting 1 inputs
inputs-Carries = (
  chunk-IsChunk 1 2 (omega arith) (omega arith) (omega arith) (omega arith),
  (chunk-IsChunk 3 1 (omega arith) (omega arith) (omega arith) (omega arith), tt),
)

abbrev begun : Reader
begun = record { conn = ctcp_init 1440 1440 200; last_added = none }

ctcp_read-IsSent_example :
    (r' : Reader) × (gs : List Buf) × (ctcp_read ample junk true 0 begun inputs ≡ done (some r'))
    × (r'.conn.sent ≡ gs ++ [])
    × All (IsFrame counting) gs
    × All (IsOutgoing counting) r'.conn.unacked
    × Starts r'.last_added 4
unfolding next_seqno ctcp_init
ctcp_read-IsSent_example =
    ctcp_read-IsSent ample junk true 0 counting 1 begun inputs (λ i. omega arith) inputs-Carries
      refl tt refl refl refl
