-- ===== src/Ctcp/Sys/Unreliable/Sent.antt =====
-- The packets that the processes of a call of `conn_send` send, and the one process that sends.
use mathlib.Core.Path.{subst}
use native.Mathlib.Nat.{mod-lt}
use cs.Base.{
  ℕ, ◌+◌, ◌-◌, ◌*◌, ◌%◌, ◌^◌, ◌≤◌, ◌<◌, ◌≡◌, ◌≢◌, refl, Bool, true, false, not, ◌&&◌, ◌==◌,
  if◌then◌else◌, Bool-cases, inl, inr, arith, List, [], ◌∷◌, ◌++◌, Option, none, some, done, ◌>>=◌,
  ◌>>◌, require, Ensures, returns, next, bind, Ensures-mono, known,
}
use cs.Bytes.{Buf}
use cs.Ctcp.Sys.Convert.{Link, convert_to_datagram}
use cs.Ctcp.Sys.Unreliable.{
  Luck, Wire, Fate, exited, returned, Process, rand_percent, flipbit, hits, rand_bit, sent_bytes,
  corrupts, send_copy,
}

-- A packet carries the segment, or the segment with one bit flipped behind its flags.
pub data IsSent (link : Link) (copy : Buf) (len : ℕ) : Buf → Type 0 where
  intact : {pkt : Buf} → convert_to_datagram link copy len ≡ done pkt → IsSent link copy len pkt
  flipped :
      {pkt : Buf} (bit : ℕ) (c : Buf)
      → 128 ≤ bit
      → bit < len * 8
      → flipbit copy bit ≡ done c
      → convert_to_datagram link c len ≡ done pkt
      → IsSent link copy len pkt

abbrev pub AllSent : Link → Buf → ℕ → List Process → Type 0
AllSent link copy len [] = Unit
AllSent link copy len (p ∷ ps) =
    ((b : Buf) → p.sent ≡ some b → IsSent link copy len b) × AllSent link copy len ps

-- How many processes send, and how many return.
abbrev pub sends : Option Buf → ℕ
sends none = 0
sends (some b) = 1

abbrev pub senders : List Process → ℕ
senders [] = 0
senders (p ∷ ps) = sends p.sent + senders ps

abbrev pub returns_of : Fate → ℕ
returns_of exited = 0
returns_of (returned n) = 1

abbrev pub returning : List Process → ℕ
returning [] = 0
returning (p ∷ ps) = returns_of p.fate + returning ps

pub AllSent-append :
    (link : Link) (copy : Buf) (len : ℕ) (ps qs : List Process)
    → AllSent link copy len ps
    → AllSent link copy len qs
    → AllSent link copy len (ps ++ qs)
AllSent-append link copy len [] qs a b = b
AllSent-append link copy len (p ∷ ps) qs (h, a) b = (h, AllSent-append link copy len ps qs a b)

pub senders-append : (ps qs : List Process) → senders (ps ++ qs) ≡ senders ps + senders qs
senders-append [] qs = omega arith
senders-append (p ∷ ps) qs = omega (arith, senders-append ps qs)

pub returning-append : (ps qs : List Process) → returning (ps ++ qs) ≡ returning ps + returning qs
returning-append [] qs = omega arith
returning-append (p ∷ ps) qs = omega (arith, returning-append ps qs)

rand_bit-in :
    (r len : ℕ) → 20 ≤ len → len ≤ 8000 → (128 ≤ rand_bit r len) × (rand_bit r len < len * 8)
rand_bit-in r len low high =
    let data_length : (len + 2 ^ 16 - 16) % 2 ^ 16 ≡ len - 16 = omega arith in
    let some_data : (len - 16 == 0) ≡ false = ground arith in
    let rest : r % ((len - 16) * 8 - 1) < (len - 16) * 8 - 1 = mod-lt r (omega arith) in
    rw (data_length, some_data) (omega (arith, rest), omega (arith, rest))

pub no_fault : (did : Bool) → (not did && false) ≡ false
no_fault true = refl
no_fault false = refl

-- An option of 0 makes no fault.
pub hits-none :
    (w : Wire) (opt level : ℕ) (l : Luck)
    → Ensures (λ p. opt ≡ 0 → p.0 ≡ false) (hits w opt level l)
unfolding hits
hits-none w opt level l = elim (Bool-cases w.faults.tester) [
  | inl e ↦ rw e (returns λ h. rw h (no_fault l.did))
  | inr e ↦ rw e (next (rand_percent w.rand level l.draws) λ percent. returns λ h. ground arith)
]

pub some-injective : {A : Type 0} {a b : A} → some a ≡ some b → a ≡ b
some-injective e = cc

pub none-ne-some : {A : Type 0} {a : A} → none ≢ some a
none-ne-some e = cc

pub true-ne-false : true ≢ false
true-ne-false e = cc

abbrev pub one : Bool → ℕ
one forked = if forked then 0 else 1

module _ (w : Wire) (copy : Buf) (len : ℕ) (low : 20 ≤ len) (high : len ≤ 8000) where
  -- One process that sends.
  abbrev pub IsSender : Bool → Process → Type 0
  IsSender forked p =
      ((b : Buf) → p.sent ≡ some b → IsSent w.link copy len b)
      × (sends p.sent ≡ 1)
      × (returns_of p.fate ≡ one forked)

  abbrev Carries : Buf → Type 0
  Carries c = (pkt : Buf) → convert_to_datagram w.link c len ≡ done pkt → IsSent w.link copy len pkt

  -- What is sent of the copy.
  copy-Carries :
      (r : ℕ) (hit : Bool)
      → Ensures Carries (if hit then flipbit copy (rand_bit r len) else done copy)
  copy-Carries r true = Ensures-mono (known (flipbit copy (rand_bit r len))) λ c e pkt k.
      let (behind, inside) = rand_bit-in r len low high in
      flipped (rand_bit r len) c behind inside e k
  copy-Carries r false = returns λ pkt k. intact k

  ends :
      (forked : Bool) (n : Option ℕ)
      → returns_of (if forked then exited else returned n) ≡ one forked
  ends true n = refl
  ends false n = refl

  pub send_copy-IsSender :
      (level : ℕ) (forked : Bool) (l : Luck)
      → Ensures (IsSender forked) (send_copy w level forked l copy len)
  unfolding send_copy ◌>>◌ ◌>>=◌
  send_copy-IsSender level forked l = next (rand_percent w.rand level l.draws) λ percent.
      bind (copy-Carries (w.rand (l.draws + 1)) (corrupts w l percent)) λ c carries.
        bind (known (convert_to_datagram w.link c len)) λ pkt e. next (require _) λ ok. returns (
          (λ b same. subst (IsSent w.link copy len) (some-injective same) (carries pkt e)),
          refl,
          ends forked (sent_bytes (w.sendto pkt)),
        )
