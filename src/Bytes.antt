-- ===== src/Bytes.antt =====
-- Memory as C sees it: buffers with a size, checked accesses, and the byte order of a
-- little-endian host (`htons`, `htonl`, `memcpy` and the struct fields of sr_protocol.h).
pub mod Patch
pub mod Words
use cs.Base.{
  ℕ, ◌+◌, ◌-◌, ◌*◌, ◌/◌, ◌%◌, ◌^◌, ◌<◌, Bool, ◌&&◌, ltb, leb, ◌==◌, if◌then◌else◌, Run, done, fault,
  zero, suc, List, [], ◌∷◌, length,
}

-- A block of memory: its size, and the byte at each offset. Nothing reads `at` past `len`.
pub record Buf : Type 0 where
  pub len : ℕ
  pub at : ℕ → ℕ

abbrev pub HasBytes : Buf → Type 0
HasBytes b = (i : ℕ) → b.at i < 256

-- An access to `n` bytes from `off`.
abbrev pub fits : Buf → ℕ → ℕ → Bool
fits b off n = leb (off + n) b.len

abbrev pub patch : (ℕ → ℕ) → ℕ → ℕ → (ℕ → ℕ) → ℕ → ℕ
patch old off n new i = if leb off i && ltb i (off + n) then new (i - off) else old i

abbrev pub write : Buf → ℕ → ℕ → (ℕ → ℕ) → Run Buf
write b off n new = if fits b off n then done (record b { at = patch b.at off n new }) else fault

-- The values at an offset, for statements.
abbrev pub half_at : Buf → ℕ → ℕ
half_at b off = b.at off + b.at (off + 1) * 256

abbrev pub word_at : Buf → ℕ → ℕ
word_at b off = b.at off + b.at (off + 1) * 256 + b.at (off + 2) * 2 ^ 16 + b.at (off + 3) * 2 ^ 24

abbrev pub load8 : Buf → ℕ → Run ℕ
load8 b off = if fits b off 1 then done (b.at off) else fault

abbrev pub load16 : Buf → ℕ → Run ℕ
load16 b off = if fits b off 2 then done (half_at b off) else fault

abbrev pub load32 : Buf → ℕ → Run ℕ
load32 b off = if fits b off 4 then done (word_at b off) else fault

-- Byte `i` of a value in memory.
abbrev pub byte_of : ℕ → ℕ → ℕ
byte_of v i = v / 256 ^ i % 256

abbrev pub store8 : Buf → ℕ → ℕ → Run Buf
store8 b off v = write b off 1 (byte_of v)

abbrev pub store16 : Buf → ℕ → ℕ → Run Buf
store16 b off v = write b off 2 (byte_of v)

abbrev pub store32 : Buf → ℕ → ℕ → Run Buf
store32 b off v = write b off 4 (byte_of v)

-- memcpy(dst + d, src + s, n)
abbrev pub memcpy : Buf → ℕ → Buf → ℕ → ℕ → Run Buf
memcpy dst d src s n = if fits src s n then write dst d n (λ i. src.at (s + i)) else fault

-- Network and host order on a little-endian host.
abbrev pub htons : ℕ → ℕ
htons x = x % 256 * 256 + x / 256 % 256

abbrev pub htonl : ℕ → ℕ
htonl x = x % 256 * 2 ^ 24 + x / 256 % 256 * 2 ^ 16 + x / 2 ^ 16 % 256 * 256 + x / 2 ^ 24 % 256

-- A hardware address, `unsigned char[6]`.
pub record Mac : Type 0 where
  pub b0 : ℕ
  pub b1 : ℕ
  pub b2 : ℕ
  pub b3 : ℕ
  pub b4 : ℕ
  pub b5 : ℕ

abbrev pub mac_byte : Mac → ℕ → ℕ
mac_byte m i =
    if i == 0
    then m.b0
    else if i == 1
    then m.b1
    else if i == 2
    then m.b2
    else if i == 3
    then m.b3
    else if i == 4
    then m.b4
    else m.b5

-- memcmp(a, b, 6) == 0
abbrev pub mac_eq : Mac → Mac → Bool
mac_eq a b =
    a.b0 == b.b0
    && (a.b1 == b.b1 && (a.b2 == b.b2 && (a.b3 == b.b3 && (a.b4 == b.b4 && a.b5 == b.b5))))

abbrev pub mac_at : Buf → ℕ → Mac
mac_at b off = record {
  b0 = b.at off;
  b1 = b.at (off + 1);
  b2 = b.at (off + 2);
  b3 = b.at (off + 3);
  b4 = b.at (off + 4);
  b5 = b.at (off + 5);
}

abbrev pub load_mac : Buf → ℕ → Run Mac
load_mac b off = if fits b off 6 then done (mac_at b off) else fault

abbrev pub store_mac : Buf → ℕ → Mac → Run Buf
store_mac b off m = write b off 6 (mac_byte m)

-- malloc(n) and memcpy(.., b, n)
abbrev pub copy_of : Buf → ℕ → Run Buf
copy_of b n = if fits b 0 n then done (record { len = n; at = b.at }) else fault

-- calloc(n, 1), and malloc(n) or a local array with the contents `junk`.
abbrev pub zeroed : ℕ → Buf
zeroed n = record { len = n; at = λ i. 0 }

abbrev pub fresh_buf : ℕ → (ℕ → ℕ) → Buf
fresh_buf n junk = record { len = n; at = junk }

-- memcpy(dst - k, ..) for 0 < k: the bytes in front of a block are not its own, so that only an
-- empty copy has a meaning.
abbrev pub memcpy_before : Buf → ℕ → Buf → ℕ → ℕ → Run Buf
memcpy_before dst k src s n = if n == 0 then done dst else fault

-- A block with given contents.
abbrev pub byte_at : List ℕ → ℕ → ℕ
byte_at [] i = 0
byte_at (b ∷ bs) zero = b
byte_at (b ∷ bs) (suc i) = byte_at bs i

abbrev pub of_bytes : List ℕ → Buf
of_bytes bs = record { len = length bs; at = byte_at bs }
