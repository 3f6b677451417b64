-- ===== src/Router/Login.antt =====
-- The answers to the server's commands about the session in sr_vns_comm.c: `sr_handle_auth_request`,
-- `sr_handle_auth_status` and `sr_handle_rtable`. The files and SHA-1 are arguments.
pub mod Reply
use cs.Base.{
  ℕ, zero, suc, ◌+◌, ◌-◌, ◌/◌, ◌%◌, ◌^◌, ◌<◌, ◌≤◌, Bool, not, ◌==◌, List, [], ◌∷◌, ◌++◌, length,
  ltb, leb, if◌then◌else◌, Option, none, some, Run, done, fault, ◌>>=◌, ◌>>◌, require,
}
use cs.Bytes.{
  Buf, byte_at, byte_of, load8, load32, store32, write, memcpy, fresh_buf, of_bytes, htonl, fits,
}

abbrev pub id_size : ℕ
id_size = 32

abbrev pub auth_key_len : ℕ
auth_key_len = 64

abbrev pub sha1_len : ℕ
sha1_len = 20

abbrev pub vns_auth_reply : ℕ
vns_auth_reply = 256

-- The characters from an offset up to the terminator, `n` at most.
abbrev pub until_nul : ℕ → (ℕ → ℕ) → ℕ → List ℕ
until_nul zero at off = []
until_nul (suc n) at off =
    let rest = until_nul n at (off + 1) in if at off == 0 then [] else at off ∷ rest

-- The string at an offset, whose terminator must stand in the block.
abbrev pub c_string : Buf → ℕ → Run (List ℕ)
c_string b off =
    let s = until_nul (b.len - off) b.at off in if ltb (off + length s) b.len then done s else fault

-- What the system gives: the line of the file auth_key, if it can be read; the digest of some bytes, as five
-- words; whether files can be written and commands sent.
pub record Host : Type 0 where
  pub auth_key : Option (List ℕ)
  pub digest : List ℕ → Option (ℕ → ℕ)
  pub junk : ℕ → ℕ
  pub can_write : Bool
  pub can_send : Bool

-- The table behind the name of the host.
abbrev pub table_content : Host → Buf → ℕ → Run Buf
table_content h rtable len =
    let n = (len + 2 ^ 32 - 8 - id_size) % 2 ^ 32 in
    memcpy (fresh_buf n h.junk) 0 rtable (8 + id_size) n

-- The end of the file's name and what is written to it.
unfoldable pub sr_handle_rtable : Host → Buf → ℕ → Run (Option (List ℕ × Buf))
sr_handle_rtable h rtable len = do
  id ← c_string rtable 8
  require (leb (length id) id_size)
  if h.can_write
      then (do content ← table_content h rtable len; done (some (id, content)))
      else done none

-- `n` bytes of a block.
abbrev pub block_bytes : (ℕ → ℕ) → ℕ → ℕ → List ℕ
block_bytes at off zero = []
block_bytes at off (suc n) = at off ∷ block_bytes at (off + 1) n

-- The local array with the line that `fgets` has read.
abbrev pub key_array : Host → List ℕ → ℕ → ℕ
key_array h line i =
    if ltb i (length line) then byte_at line i else if i == length line then 0 else h.junk i

-- A digest in the order of the network.
abbrev pub digest_bytes : (ℕ → ℕ) → ℕ → ℕ
digest_bytes d i = byte_of (htonl (d (i / 4))) (i % 4)

unfoldable pub build_reply : Host → List ℕ → (ℕ → ℕ) → Run Buf
build_reply h user d = do
  let len = 12 + length user + sha1_len
  ar ← store32 (fresh_buf len h.junk) 0 (htonl len)
  ar ← store32 ar 4 (htonl vns_auth_reply)
  ar ← store32 ar 8 (htonl (length user))
  ar ← write ar 12 (length user + 1) (byte_at user)
  write ar (12 + length user) sha1_len (digest_bytes d)

-- The array of the user's name has 32 characters, and `strlen` needs its terminator.
abbrev pub reply_by : Host → List ℕ → Option (ℕ → ℕ) → Run (Option Buf)
reply_by h user none = done none
reply_by h user (some d) = do
  require (ltb (length user) 32)
  ar ← build_reply h user d
  done (if h.can_send then some ar else none)

-- The reply that was sent, or none. The length of the salt wraps around below 8 bytes.
abbrev pub auth_by : Host → List ℕ → Buf → ℕ → Option (List ℕ) → Run (Option Buf)
auth_by h user req len none = done none
auth_by h user req len (some line) = do
  let salt_len = (len + 2 ^ 32 - 8) % 2 ^ 32
  require (fits req 8 salt_len)
  reply_by h user
      (h.digest (block_bytes req.at 8 salt_len ++ block_bytes (key_array h line) 0 auth_key_len))

unfoldable pub sr_handle_auth_request : Host → List ℕ → Buf → ℕ → Run (Option Buf)
unfolding build_reply
sr_handle_auth_request h user req len = auth_by h user req len h.auth_key

unfoldable pub sr_handle_auth_status : Buf → Run Bool
sr_handle_auth_status status = do auth_ok ← load8 status 8; done (not (auth_ok == 0))
