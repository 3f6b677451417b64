-- ===== src/Ctcp/Sys/Segments.antt =====
-- The segments of the connection itself: `create_tcp_rst` and `create_tcp_seg` of ctcp_sys_internal.c. A
-- packet has the layout of Ctcp/Sys/Convert.
pub mod Sent
use cs.Base.{
  ℕ, ◌+◌, ◌%◌, ◌^◌, Bool, ◌==◌, if◌then◌else◌, Option, none, some, Run, done, ◌>>=◌, bit_and,
}
use cs.Bytes.{Buf, store8, store16, store32, htons, htonl}
use cs.Ctcp.Sys.Convert.{Link, copy_data, cksum_tcp, create_datagram}
use cs.Ctcp.Sys.Filter.{th_rst}

-- The numbers of a connection that change as it sends and receives.
pub record Numbers : Type 0 where
  pub seqno : ℕ
  pub next_seqno : ℕ
  pub ackno : ℕ

unfoldable pub create_tcp_rst : Link → ℕ → ℕ → ℕ → ℕ → Run Buf
unfolding create_datagram cksum_tcp
create_tcp_rst l ip_dst port_src port_dst seqno = do
  d ← create_datagram l.ip_addr ip_dst 20
  d ← store16 d 20 port_src
  d ← store16 d 22 port_dst
  d ← store32 d 24 seqno
  d ← store32 d 28 0
  d ← store8 d 32 0x50
  d ← store8 d 33 th_rst
  d ← store16 d 34 0
  sum ← cksum_tcp d 0
  store16 d 36 sum

abbrev pub copy_payload : Buf → Option Buf → ℕ → Run Buf
copy_payload d none len = done d
copy_payload d (some payload) len = copy_data d 40 payload 0 len

abbrev pub window_of : ℕ → ℕ → ℕ
window_of flags recv_window = if bit_and flags th_rst == 0 then htons recv_window else 0

unfoldable pub seg_header : Link → ℕ → Numbers → ℕ → Buf → Run Buf
seg_header l recv_window dst flags d = do
  d ← store16 d 20 (htons l.port)
  d ← store16 d 22 (htons l.peer_port)
  d ← store32 d 24 (htonl dst.next_seqno)
  d ← store32 d 28 (htonl dst.ackno)
  d ← store8 d 32 0x50
  d ← store8 d 33 flags
  d ← store16 d 34 (window_of flags recv_window)
  store16 d 36 0

unfoldable pub create_tcp_seg : Link → ℕ → Numbers → ℕ → Option Buf → ℕ → Run (Buf × Numbers)
unfolding create_datagram cksum_tcp seg_header
create_tcp_seg l recv_window dst flags payload len = do
  d ← create_datagram l.ip_addr l.peer_addr ((20 + len) % 2 ^ 16)
  d ← copy_payload d payload len
  d ← seg_header l recv_window dst flags d
  sum ← cksum_tcp d len
  d ← store16 d 36 sum
  done (d, record dst { seqno = dst.next_seqno; next_seqno = (dst.next_seqno + len) % 2 ^ 32 })
