-- ===== src/Ctcp/Sys/Convert.antt =====
-- The translation between cTCP segments and IP packets with a TCP header: `create_datagram` and `cksum_tcp` of
-- ctcp_sys_internal.h, `convert_to_datagram` and `convert_to_ctcp` of ctcp_sys_internal.c. The IP header
-- stands at 0, the TCP header at 20 and the data at 40. A field of a zeroed block that is set to 0 is left
-- out. `cksum` of ctcp_utils.c is the same loop as that of the router.
pub mod Agree
pub mod Examples
pub mod Fields
pub mod Steps
mod Taken
pub mod Round
use cs.Base.{ℕ, ◌+◌, ◌-◌, ◌%◌, ◌^◌, Bool, ◌==◌, if◌then◌else◌, Run, done, ◌>>=◌, bit_or}
use cs.Bytes.{Buf, load8, load16, load32, store8, store16, store32, memcpy, zeroed, htons, htonl}
use cs.Checksum.{cksum}

abbrev pub ip_id : ℕ
ip_id = 144

abbrev pub default_ttl : ℕ
default_ttl = 64

abbrev pub th_ack : ℕ
th_ack = 16

-- The host's own address, the peer's, and whether the peer is on the web.
pub record Link : Type 0 where
  pub ip_addr : ℕ
  pub port : ℕ
  pub peer_addr : ℕ
  pub peer_port : ℕ
  pub init_seqno : ℕ
  pub their_init_seqno : ℕ
  pub web : Bool

abbrev pub copy_data : Buf → ℕ → Buf → ℕ → ℕ → Run Buf
copy_data dst d src s n = if n == 0 then done dst else memcpy dst d src s n

unfoldable pub cksum_tcp : Buf → ℕ → Run ℕ
cksum_tcp packet len = do
  src ← load32 packet 12
  dst ← load32 packet 16
  p ← store32 (zeroed (32 + len)) 0 src
  p ← store32 p 4 dst
  p ← store8 p 9 6
  p ← store16 p 10 (htons ((20 + len) % 2 ^ 16))
  p ← memcpy p 12 packet 20 (20 + len)
  cksum p 0 (len + 32)

-- The header before its checksum.
unfoldable pub ip_header : ℕ → ℕ → ℕ → Run Buf
ip_header src dst total_len = do
  d ← store8 (zeroed total_len) 0 0x45
  d ← store16 d 2 (htons total_len)
  d ← store16 d 4 (htons ip_id)
  d ← store8 d 8 default_ttl
  d ← store8 d 9 6
  d ← store32 d 12 src
  store32 d 16 dst

unfoldable pub create_datagram : ℕ → ℕ → ℕ → Run Buf
unfolding ip_header
create_datagram src dst len = do
  d ← ip_header src dst ((20 + len) % 2 ^ 16)
  sum ← cksum d 0 20
  store16 d 10 sum

-- The fields of the TCP header that do not depend on the data's checksum.
unfoldable pub tcp_header : Link → Buf → Buf → Run Buf
tcp_header l d segment = do
  d ← store16 d 20 (htons l.port)
  d ← store16 d 22 (htons l.peer_port)
  seqno ← load32 segment 0
  d ← store32 d 24 (htonl ((htonl seqno + l.init_seqno) % 2 ^ 32))
  ackno ← load32 segment 4
  d ← store32 d 28 (htonl ((htonl ackno + l.their_init_seqno) % 2 ^ 32))
  d ← store8 d 32 0x50
  flags ← load8 segment 12
  d ← store8 d 33 (if l.web then bit_or flags th_ack else flags)
  window ← load16 segment 16
  d ← store16 d 34 window
  store16 d 36 0

unfoldable pub convert_to_datagram : Link → Buf → ℕ → Run Buf
unfolding create_datagram tcp_header cksum_tcp
convert_to_datagram l segment len = do
  let data_len = (len + (2 ^ 16 - 20)) % 2 ^ 16
  d ← create_datagram l.ip_addr l.peer_addr ((len + (2 ^ 16 - 20) + 20) % 2 ^ 16)
  d ← copy_data d 40 segment 20 data_len
  d ← tcp_header l d segment
  sum ← load16 segment 18
  cleared ← store16 segment 18 0
  correct_sum ← cksum cleared 0 len
  tcp_sum ← cksum_tcp d data_len
  store16 d 36 ((tcp_sum + (correct_sum + 2 ^ 16 - sum)) % 2 ^ 16)

-- The segment before its checksum. The length that came is not looked at.
unfoldable pub ctcp_fields : Link → Buf → ℕ → Run Buf
ctcp_fields l datagram data_len = do
  let len = (data_len + 20) % 2 ^ 16
  seq ← load32 datagram 24
  g ← store32 (zeroed len) 0 (htonl ((htonl seq + 2 ^ 32 - l.their_init_seqno) % 2 ^ 32))
  ack ← load32 datagram 28
  g ← store32 g 4 (htonl ((htonl ack + 2 ^ 32 - l.init_seqno) % 2 ^ 32))
  g ← store16 g 8 (htons len)
  flags ← load8 datagram 33
  g ← store32 g 12 flags
  window ← load16 datagram 34
  g ← store16 g 16 window
  copy_data g 20 datagram 40 data_len

unfoldable pub convert_to_ctcp : Link → Buf → Run Buf
unfolding ctcp_fields cksum_tcp
convert_to_ctcp l datagram = do
  tot_len ← load16 datagram 2
  let data_len = (htons tot_len + 2 ^ 16 - 40) % 2 ^ 16
  g ← ctcp_fields l datagram data_len
  c ← cksum g 0 ((data_len + 20) % 2 ^ 16)
  sum ← load16 datagram 36
  cleared ← store16 datagram 36 0
  correct_sum ← cksum_tcp cleared data_len
  store16 g 18 ((c + (correct_sum + 2 ^ 16 - sum)) % 2 ^ 16)
