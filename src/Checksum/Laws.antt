-- ===== src/Checksum/Laws.antt =====
-- The checksum against the definition of RFC 1071: a block whose 16-bit words, its checksum among
-- them, add up to 0 in one's complement arithmetic, that is, modulo 2 ^ 16 - 1.
use cs.Base.{
  ◌>>=◌, ℕ, zero, suc, ◌+◌, ◌-◌, ◌*◌, ◌/◌, ◌%◌, ◌^◌, ◌≤◌, ◌<◌, ◌≡◌, refl, ◌==◌, leb, if◌then◌else◌,
  arith, done, Bool-cases, inl, inr, le→leb,
}
use cs.Bytes.{Buf, HasBytes, htons}
use cs.Checksum.{sum_loop, fold_loop, fold_fuel, cksum}

-- The sum of the words in network order, an odd byte padded by a zero, with no bound.
unfoldable pub word_sum : Buf → ℕ → ℕ → ℕ
word_sum b off zero = 0
word_sum b off (suc zero) = b.at off * 256
word_sum b off (suc (suc len)) = b.at off * 256 + b.at (off + 1) + word_sum b (off + 2) len

-- What a receiver checks.
abbrev pub IsSummed : Buf → ℕ → ℕ → Type 0
IsSummed b off len = word_sum b off len % 0xffff ≡ 0

word_sum-le : (b : Buf) (off len : ℕ) → HasBytes b → word_sum b off len ≤ (len + 1) * 2 ^ 15
unfolding word_sum
word_sum-le b off zero h = omega arith
word_sum-le b off (suc zero) h = omega (arith, h off)
word_sum-le b off (suc (suc len)) h =
    omega (arith, h off, h (off + 1), word_sum-le b (off + 2) len h)

sum_loop-eq-word_sum :
    (b : Buf) (off len sum : ℕ)
    → sum + word_sum b off len < 2 ^ 32
    → sum_loop b off len sum ≡ sum + word_sum b off len
unfolding sum_loop word_sum
sum_loop-eq-word_sum b off zero sum h = omega arith
sum_loop-eq-word_sum b off (suc zero) sum h = omega arith
sum_loop-eq-word_sum b off (suc (suc len)) sum h =
    let pair = b.at off * 256 + b.at (off + 1) in
    let kept : (sum + pair) % 2 ^ 32 ≡ sum + pair = omega arith in
    rw kept (omega (arith, sum_loop-eq-word_sum b (off + 2) len (sum + pair) (omega arith)))

abbrev folded : ℕ → ℕ
folded s = s / 2 ^ 16 + s % 2 ^ 16

folded-mod : (s : ℕ) → folded s % 0xffff ≡ s % 0xffff
folded-mod s = omega arith

folded-pos : (s : ℕ) → 0 < s → 0 < folded s
folded-pos s h = omega arith

-- A normal end of the loop: the residue is kept, and only 0 folds to 0.
record IsFolded (s : ℕ) (r : ℕ) : Type 0 where
  small : r ≤ 0xffff
  residue : r % 0xffff ≡ s % 0xffff

fold_loop-stop :
    (fuel s : ℕ) → s ≤ 0xffff → (r : ℕ) × (fold_loop (suc fuel) s ≡ done r) × IsFolded s r
unfolding fold_loop
fold_loop-stop fuel s h = (s, rw (le→leb s 0xffff h), record { small = h; residue = refl })

fold_loop-step :
    (fuel s : ℕ)
    → (r : ℕ) × (fold_loop fuel (folded s) ≡ done r) × IsFolded (folded s) r
    → (r : ℕ) × (fold_loop (suc fuel) s ≡ done r) × IsFolded s r
unfolding fold_loop
fold_loop-step fuel s (r, e, f) = elim (Bool-cases (leb s 0xffff)) [
  | inl small ↦ (s, rw small, record { small = ground arith; residue = refl })
  | inr more ↦
      (r, rw more e, record { small = f.small; residue = omega (arith, f.residue, folded-mod s) })
]

-- Three rounds are enough for a 32-bit sum.
fold_loop_lem : (s : ℕ) → s < 2 ^ 32 → (r : ℕ) × (fold_loop fold_fuel s ≡ done r) × IsFolded s r
fold_loop_lem s h =
    fold_loop-step 2 s
      (fold_loop-step 1 (folded s) (fold_loop-stop 0 (folded (folded s)) (omega arith)))

-- What the two lines behind the loop make of a folded sum.
abbrev negate : ℕ → ℕ
negate sum =
    let negated = htons ((2 ^ 32 - 1 - sum) % 2 ^ 16) in if negated == 0 then 0xffff else negated

record IsNegated (sum c : ℕ) : Type 0 where
  positive : 0 < c
  fits16 : c ≤ 0xffff
  cancels : (sum + htons c) % 0xffff ≡ 0

negate-IsNegated : (sum : ℕ) → sum ≤ 0xffff → IsNegated sum (negate sum)
negate-IsNegated sum h = record {
  positive = ground arith;
  fits16 = ground arith;
  cancels = ground arith;
}

-- A checksum of a block: `c` stored in network order makes the sum of the block cancel.
pub record IsChecksum (b : Buf) (off len c : ℕ) : Type 0 where
  pub positive : 0 < c
  pub fits16 : c ≤ 0xffff
  pub cancels : (word_sum b off len + htons c) % 0xffff ≡ 0

-- On a block of bytes in range, of at most 65535 bytes, `cksum` returns: its fuel is enough. The value
-- is not 0, fits 16 bits, and stored in network order makes the one's complement sum of the block cancel.
pub cksum-IsChecksum :
    (b : Buf) (off len : ℕ)
    → HasBytes b
    → len ≤ 0xffff
    → off + len ≤ b.len
    → (c : ℕ) × (cksum b off len ≡ done c) × IsChecksum b off len c
unfolding cksum ◌>>=◌
cksum-IsChecksum b off len bytes short inside =
    let bound = word_sum-le b off len bytes in
    let summed = sum_loop-eq-word_sum b off len 0 (omega (arith, bound)) in
    let (r, e, f) = fold_loop_lem (sum_loop b off len 0) (omega (arith, summed, bound)) in
    let n = negate-IsNegated r f.small in
    (
      negate r,
      rw (le→leb (off + len) b.len inside, e),
      record {
        positive = n.positive;
        fits16 = n.fits16;
        cancels = omega (arith, n.cancels, f.residue, summed);
      },
    )
