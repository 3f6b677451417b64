-- ===== src/Router/Forward/Transit.antt =====
-- What a packet looks like after one hop.
use cs.Base.{◌>>=◌, ℕ, ◌+◌, ◌-◌, ◌*◌, ◌/◌, ◌%◌, ◌^◌, ◌≤◌, ◌<◌, ◌≡◌, ◌≢◌, ◌↔◌, arith, done, le→leb}
use native.Mathlib.Decide.{ℕ_discrete}
use cs.Bytes.{Buf, HasBytes, half_at, patch, byte_of}
use cs.Checksum.Laws.{word_sum, IsSummed}
use cs.Router.Forward.{age}

-- The frame that `age` makes of `f`.
abbrev pub aged : Buf → Buf
aged f = record f {
  at = patch (patch f.at 22 1 (byte_of (f.at 22 - 1))) 24 2 (byte_of ((half_at f 24 + 1) % 2 ^ 16));
}

pub age-aged : (f : Buf) → 34 ≤ f.len → age f (f.at 22) ≡ done (aged f)
unfolding age ◌>>=◌
age-aged f h = rw (le→leb 23 f.len (omega arith), le→leb 26 f.len (omega arith))

-- One hop on the words of a header: `rest` is the sum of those that stay.
module _ (rest t lo hi : ℕ) (lo_byte : lo < 256) (hi_byte : hi < 256) (alive : 0 < t) where
  abbrev sum_before : ℕ
  sum_before = rest + t * 256 + (lo * 256 + hi)

  abbrev sum_after : ℕ
  sum_after =
      rest
      + (t - 1) * 256
      + ((lo + hi * 256 + 1) % 2 ^ 16 % 256 * 256 + (lo + hi * 256 + 1) % 2 ^ 16 / 256)

  sum-full : lo + hi * 256 ≡ 0xffff → sum_before ≡ sum_after + 256 + 0xffff
  sum-full h = omega arith

  sum-carry : lo + hi * 256 ≢ 0xffff → lo ≡ 255 → sum_before + 1 ≡ sum_after + 0x10000
  sum-carry ne h = omega arith

  sum-same : lo ≢ 255 → sum_before ≡ sum_after
  sum-same h = omega arith

  sum_step : sum_before % 0xffff ≡ 0 → (sum_after % 0xffff ≡ 0) ↔ (lo + hi * 256 ≢ 0xffff)
  sum_step h = elim (ℕ_discrete (lo + hi * 256) 0xffff) [
    | yes full ↦ ((λ k. absurd (omega (arith, sum-full full))), (λ ne. absurd (ne full)))
    | no ne ↦ ((λ k. ne), (λ _. kept ne))
  ]
    where
      kept : lo + hi * 256 ≢ 0xffff → sum_after % 0xffff ≡ 0
      kept ne = elim (ℕ_discrete lo 255) [
        | yes carry ↦ omega (arith, sum-carry ne carry)
        | no plain ↦ omega (arith, sum-same plain)
      ]

-- The words of the header that a hop leaves alone.
abbrev rest_words : Buf → ℕ
rest_words f =
    f.at 14 * 256
    + f.at 15
    + (f.at 16 * 256 + f.at 17)
    + (f.at 18 * 256 + f.at 19)
    + (f.at 20 * 256 + f.at 21)
    + f.at 23
    + (f.at 26 * 256 + f.at 27)
    + (f.at 28 * 256 + f.at 29)
    + (f.at 30 * 256 + f.at 31)
    + (f.at 32 * 256 + f.at 33)

word_sum-before :
    (f : Buf) → word_sum f 14 20 ≡ rest_words f + f.at 22 * 256 + (f.at 24 * 256 + f.at 25)
unfolding word_sum
word_sum-before f = omega arith

word_sum-after :
    (f : Buf)
    → HasBytes f
    → 0 < f.at 22
    → word_sum (aged f) 14 20
      ≡ rest_words f
        + (f.at 22 - 1) * 256
        + ((half_at f 24 + 1) % 2 ^ 16 % 256 * 256 + (half_at f 24 + 1) % 2 ^ 16 / 256)
unfolding word_sum
word_sum-after f bytes alive = omega (arith, bytes 22)

-- A frame with an IP header whose checksum is right has one that is right after the hop exactly
-- when its checksum field is not 0xffff. `age` does not fault, and takes one from the TTL.
pub age-IsSummed :
    (f : Buf)
    → HasBytes f
    → 34 ≤ f.len
    → 0 < f.at 22
    → IsSummed f 14 20
    → (g : Buf) × (age f (f.at 22) ≡ done g)
      × (g.at 22 + 1 ≡ f.at 22)
      × (IsSummed g 14 20 ↔ (half_at f 24 ≢ 0xffff))
age-IsSummed f bytes long alive sum = (
  aged f,
  age-aged f long,
  omega (arith, bytes 22),
  rw (word_sum-after f bytes alive) (
      sum_step (rest_words f) (f.at 22) (f.at 24) (f.at 25) (bytes 24) (bytes 25) alive
        (rw (word_sum-before f) at sum)),
)
