-- ===== src/Bytes/Words.antt =====
-- Words of four bytes: stored and loaded again, and compared byte by byte.
use cs.Base.{ℕ, ◌+◌, ◌*◌, ◌^◌, ◌<◌, ◌≡◌, arith}
use cs.Bytes.{byte_of, htonl}

pub word_bytes :
    (x : ℕ)
    → x < 2 ^ 32
    → byte_of x 0 + byte_of x 1 * 256 + byte_of x 2 * 2 ^ 16 + byte_of x 3 * 2 ^ 24 ≡ x
word_bytes x h = omega arith

pub htonl-lt : (x : ℕ) → htonl x < 2 ^ 32
htonl-lt x = omega arith

-- Stored in network order, and taken out again.
pub network_word :
    (x : ℕ)
    → x < 2 ^ 32
    → let w = htonl x in
      htonl (byte_of w 0 + byte_of w 1 * 256 + byte_of w 2 * 2 ^ 16 + byte_of w 3 * 2 ^ 24) ≡ x
network_word x h = omega arith

pub same_word :
    (a b c d a' b' c' d' : ℕ)
    → a ≡ a'
    → b ≡ b'
    → c ≡ c'
    → d ≡ d'
    → a + b * 256 + c * 2 ^ 16 + d * 2 ^ 24 ≡ a' + b' * 256 + c' * 2 ^ 16 + d' * 2 ^ 24
same_word a b c d a' b' c' d' e f g h = omega arith
