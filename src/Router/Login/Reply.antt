-- ===== src/Router/Login/Reply.antt =====
-- The reply to an authentication request.
use cs.Base.{
  ℕ, ◌+◌, ◌-◌, ◌*◌, ◌/◌, ◌%◌, ◌^◌, ◌<◌, ◌≤◌, ◌≡◌, refl, sym, ap, ◌∙◌, true, List, ◌++◌, length,
  le→leb, lt→ltb, arith, some, done, ◌>>=◌, ◌>>◌,
}
use cs.Bytes.{Buf, byte_at, byte_of, patch, word_at, htonl}
use cs.Bytes.Patch.{patch_in, patch_before}
use cs.Bytes.Words.{network_word, same_word}
use cs.Router.Login.{
  auth_key_len, sha1_len, vns_auth_reply, Host, block_bytes, key_array, digest_bytes, build_reply,
  reply_by, sr_handle_auth_request,
}

-- A reply for the user and the digest `d`: the fields in network order, the name with its length and no
-- terminator, and the five words of the digest in network order.
pub record IsReply (user : List ℕ) (d : ℕ → ℕ) (b : Buf) : Type 0 where
  pub size : b.len ≡ 12 + length user + 20
  pub length_field : htonl (word_at b 0) ≡ b.len
  pub kind_field : htonl (word_at b 4) ≡ 256
  pub name_length : htonl (word_at b 8) ≡ length user
  pub name : (i : ℕ) → i < length user → b.at (12 + i) ≡ byte_at user i
  pub words : (j : ℕ) → j < 5 → htonl (word_at b (12 + length user + 4 * j)) ≡ d j

abbrev fields : Host → ℕ → ℕ → ℕ → ℕ
fields h len n =
    patch (patch (patch h.junk 0 4 (byte_of (htonl len))) 4 4 (byte_of (htonl vns_auth_reply))) 8 4
      (byte_of (htonl n))

abbrev named : Host → List ℕ → ℕ → ℕ
named h user =
    patch (fields h (12 + length user + sha1_len) (length user)) 12 (length user + 1) (byte_at user)

abbrev pub reply : Host → List ℕ → (ℕ → ℕ) → Buf
reply h user d = record {
  len = 12 + length user + sha1_len;
  at = patch (named h user) (12 + length user) sha1_len (digest_bytes d);
}

build_reply_lem :
    (h : Host) (user : List ℕ) (d : ℕ → ℕ) → build_reply h user d ≡ done (reply h user d)
unfolding build_reply ◌>>=◌
build_reply_lem h user d =
    let n = length user in
    let len = 12 + n + sha1_len in
    rw (
      le→leb 4 len (omega arith),
      le→leb 8 len (omega arith),
      le→leb 12 len (omega arith),
      le→leb (12 + (n + 1)) len (omega arith),
      le→leb (12 + n + sha1_len) len (omega arith),
    )

module _ (h : Host) (user : List ℕ) (d : ℕ → ℕ) where
  abbrev n : ℕ
  n = length user

  abbrev len : ℕ
  len = 12 + n + sha1_len

  -- The fields in front are not written over.
  front : (i : ℕ) → i < 12 → (reply h user d).at i ≡ fields h len n i
  front i k = ground arith

  front_word :
      (off : ℕ)
      → off + 4 ≤ 12
      → word_at (reply h user d) off ≡ word_at (record { len = len; at = fields h len n }) off
  front_word off k =
      same_word _ _ _ _ _ _ _ _ (front off (omega arith)) (front (off + 1) (omega arith))
        (front (off + 2) (omega arith)) (front (off + 3) (omega arith))

  digest_byte :
      (j t : ℕ) → j < 5 → t < 4 → (reply h user d).at (12 + n + 4 * j + t) ≡ byte_of (htonl (d j)) t
  digest_byte j t k l =
      let place : 12 + n + 4 * j + t ≡ 12 + n + (4 * j + t) = omega arith in
      let word : (4 * j + t) / 4 ≡ j = omega arith in
      let byte : (4 * j + t) % 4 ≡ t = omega arith in
      ap (reply h user d).at place
      ∙ patch_in (named h user) (12 + n) sha1_len (digest_bytes d) (4 * j + t) (omega arith)
      ∙ ap (λ (q : ℕ). byte_of (htonl (d q)) ((4 * j + t) % 4)) word
      ∙ ap (λ (q : ℕ). byte_of (htonl (d j)) q) byte

  digest_word :
      (j : ℕ)
      → j < 5
      → word_at (reply h user d) (12 + n + 4 * j)
        ≡ byte_of (htonl (d j)) 0
          + byte_of (htonl (d j)) 1 * 256
          + byte_of (htonl (d j)) 2 * 2 ^ 16
          + byte_of (htonl (d j)) 3 * 2 ^ 24
  digest_word j k =
      let off = 12 + n + 4 * j in
      let start : off + 0 ≡ off = omega arith in
      same_word _ _ _ _ _ _ _ _
        (ap (reply h user d).at (sym start) ∙ digest_byte j 0 k (omega arith))
        (digest_byte j 1 k (omega arith)) (digest_byte j 2 k (omega arith))
        (digest_byte j 3 k (omega arith))

  name_at : (i : ℕ) → i < n → (reply h user d).at (12 + i) ≡ byte_at user i
  name_at i k =
      patch_before (named h user) (12 + n) sha1_len (digest_bytes d) (12 + i) (omega arith)
      ∙ patch_in (fields h len n) 12 (n + 1) (byte_at user) i (omega arith)

  reply-IsReply : n < 2 ^ 16 → ((j : ℕ) → d j < 2 ^ 32) → IsReply user d (reply h user d)
  reply-IsReply few words = record {
    size = refl;
    length_field = ap htonl (front_word 0 (omega arith)) ∙ network_word len (omega arith);
    kind_field = ap htonl (front_word 4 (omega arith));
    name_length = ap htonl (front_word 8 (omega arith)) ∙ network_word n (omega arith);
    name = name_at;
    words = λ j k. ap htonl (digest_word j k) ∙ network_word (d j) (words j);
  }

salted : (len : ℕ) → 8 ≤ len → len < 2 ^ 32 → (len + 2 ^ 32 - 8) % 2 ^ 32 ≡ len - 8
salted len low high = omega arith

-- An authentication request is answered with the user's name and the digest of the salt and the 64 bytes behind
-- the key's line, if the key can be read, the digest computed and the reply sent. The request must have at least 8
-- bytes and lie in its block, the name be shorter than 32 characters, and a length and a digest's words be 32 bits wide.
pub sr_handle_auth_request-IsReply :
    (h : Host) (user line : List ℕ) (req : Buf) (len : ℕ) (d : ℕ → ℕ)
    → 8 ≤ len
    → len < 2 ^ 32
    → len ≤ req.len
    → length user < 32
    → ((j : ℕ) → d j < 2 ^ 32)
    → h.auth_key ≡ some line
    → h.can_send ≡ true
    → h.digest (block_bytes req.at 8 (len - 8) ++ block_bytes (key_array h line) 0 auth_key_len)
      ≡ some d
    → (b : Buf) × (sr_handle_auth_request h user req len ≡ done (some b)) × IsReply user d b
unfolding sr_handle_auth_request ◌>>=◌ ◌>>◌
sr_handle_auth_request-IsReply h user line req len d low high whole few words key sends digest = (
  reply h user d,
  rw (
    key,
    salted len low high,
    le→leb (8 + (len - 8)) req.len (omega arith),
    digest,
    reply_by,
    lt→ltb (length user) 32 few,
    build_reply_lem h user d,
    sends,
  ),
  reply-IsReply h user d (omega arith) words,
)
