-- ===== src/Checksum/Header.antt =====
-- The checksum field of a header of 20 bytes at offset 14, and sums over blocks that agree.
use cs.Base.{ℕ, zero, suc, ◌+◌, ◌-◌, ◌*◌, ◌^◌, ◌≤◌, ◌<◌, ◌≡◌, refl, arith}
use cs.Bytes.{Buf, HasBytes, word_at, patch, byte_of, htons}
use cs.Checksum.Laws.{word_sum, IsSummed, IsChecksum}

-- Storing a value keeps the bytes bytes.
pub patch-bytes :
    (old : ℕ → ℕ) (off len : ℕ) (new : ℕ → ℕ)
    → ((i : ℕ) → old i < 256)
    → ((i : ℕ) → new i < 256)
    → (i : ℕ) → patch old off len new i < 256
patch-bytes old off len new h k i = ground (arith, h i, k (i - off))

pub byte_of-bytes : (v i : ℕ) → byte_of v i < 256
byte_of-bytes v i = omega arith

-- A word that is stored is read back.
pub word_round :
    (v : ℕ)
    → v < 2 ^ 32
    → byte_of v 0 + byte_of v 1 * 256 + byte_of v 2 * 2 ^ 16 + byte_of v 3 * 2 ^ 24 ≡ v
word_round v h = omega arith

pub word_at-lt : (f : Buf) (off : ℕ) → HasBytes f → word_at f off < 2 ^ 32
word_at-lt f off h = omega (arith, h off, h (off + 1), h (off + 2), h (off + 3))

pub word_sum_congr :
    (b c : Buf) (off n : ℕ)
    → ((i : ℕ) → off ≤ i → b.at i ≡ c.at i)
    → word_sum b off n ≡ word_sum c off n
unfolding word_sum
word_sum_congr b c off zero h = refl
word_sum_congr b c off (suc zero) h = omega (arith, h off (omega arith))
word_sum_congr b c off (suc (suc n)) h = omega (
  arith,
  h off (omega arith),
  h (off + 1) (omega arith),
  word_sum_congr b c (off + 2) n (λ i below. h i (omega arith)),
)

-- A field of two zero bytes that takes a value adds that value, in network order.
abbrev pub with_ip_sum : Buf → ℕ → Buf
with_ip_sum b c = record b { at = patch b.at 24 2 (byte_of c) }

pub word_sum-with_ip_sum :
    (b : Buf) (c : ℕ)
    → b.at 24 ≡ 0
    → b.at 25 ≡ 0
    → word_sum (with_ip_sum b c) 14 20 ≡ word_sum b 14 20 + htons c
unfolding word_sum
word_sum-with_ip_sum b c h k = omega arith

-- A header whose field was cleared before the checksum was taken is right when it is stored.
pub IsSummed-with_ip_sum :
    (b : Buf) (c : ℕ)
    → b.at 24 ≡ 0
    → b.at 25 ≡ 0
    → IsChecksum b 14 20 c
    → IsSummed (with_ip_sum b c) 14 20
IsSummed-with_ip_sum b c h k s = rw (word_sum-with_ip_sum b c h k) s.cancels

pub with_ip_sum-HasBytes : (b : Buf) (c : ℕ) → HasBytes b → HasBytes (with_ip_sum b c)
with_ip_sum-HasBytes b c h = patch-bytes b.at 24 2 (byte_of c) h (byte_of-bytes c)

-- The same for the checksum of an ICMP message, which stands at offset 36.
abbrev pub with_icmp_sum : Buf → ℕ → Buf
with_icmp_sum b c = record b { at = patch b.at 36 2 (byte_of c) }

word_sum-with_icmp_sum :
    (b : Buf) (c n : ℕ)
    → b.at 36 ≡ 0
    → b.at 37 ≡ 0
    → word_sum (with_icmp_sum b c) 34 (suc (suc (suc (suc n))))
      ≡ word_sum b 34 (suc (suc (suc (suc n)))) + htons c
unfolding word_sum
word_sum-with_icmp_sum b c n h k =
    omega (arith, word_sum_congr (with_icmp_sum b c) b 38 n (λ i far. ground arith))

pub IsSummed-with_icmp_sum :
    (b : Buf) (c n : ℕ)
    → b.at 36 ≡ 0
    → b.at 37 ≡ 0
    → IsChecksum b 34 (suc (suc (suc (suc n)))) c
    → IsSummed (with_icmp_sum b c) 34 (suc (suc (suc (suc n))))
IsSummed-with_icmp_sum b c n h k s = rw (word_sum-with_icmp_sum b c n h k) s.cancels
