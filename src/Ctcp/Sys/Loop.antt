-- ===== src/Ctcp/Sys/Loop.antt =====
-- What the main loop `do_loop` of ctcp_sys_internal.c does with a received packet: which segment, if any, goes to
-- `ctcp_receive`, and which packet to `tcp_new_connection`. The
-- port of a new connection that comes of it is noted by the caller.
pub mod Through
use cs.Base.{
  ℕ, ◌+◌, ◌-◌, Bool, not, ◌&&◌, ◌==◌, if◌then◌else◌, List, Option, none, some, Run, done, ◌>>=◌,
  bit_and,
}
use cs.Bytes.{Buf, load8, load16, load32, htonl}
use cs.Ctcp.Sys.Convert.{Link, th_ack, convert_to_ctcp}
use cs.Ctcp.Sys.Filter.{
  th_syn, full_hdr_size, Filtered, failed, dropped, exited, received, recv_filter,
}

-- What is called: `ctcp_receive` with a segment and its length, or `tcp_new_connection`.
pub data PassedTo : Type 0 where
  to_receive : Link → Buf → ℕ → PassedTo
  to_new_connection : Buf → PassedTo
  ignored : PassedTo
  terminated : PassedTo

-- Whether this is the acknowledgement that ends the handshake of a new connection.
abbrev pub is_first_ack : ℕ → ℕ → ℕ → ℕ → ℕ → Bool
is_first_ack new_connection sport flags seq ack =
    (sport == new_connection)
    && not (bit_and flags th_ack == 0)
    && (htonl seq == 1)
    && (htonl ack == 1)

-- A packet of an established connection, and the port of the last new connection.
unfoldable pub pass_segment : Link → ℕ → Buf → ℕ → Run (PassedTo × ℕ)
pass_segment conn new_connection buf len = do
  segment ← convert_to_ctcp conn buf
  sport ← load16 buf 20
  flags ← load32 segment 12
  seq ← load32 segment 0
  ack ← load32 segment 4
  done (
      if is_first_ack new_connection sport flags seq ack
      then (ignored, 0)
      else (to_receive conn segment (len - full_hdr_size + 20), new_connection))

unfoldable pub pass_packet : ℕ → Option Buf → Filtered → Run (PassedTo × ℕ)
unfolding pass_segment
pass_packet new_connection none f = done (ignored, new_connection)
pass_packet new_connection (some buf) failed = done (ignored, new_connection)
pass_packet new_connection (some buf) dropped = done (ignored, new_connection)
pass_packet new_connection (some buf) exited = done (terminated, new_connection)
pass_packet new_connection (some buf) (received len (some conn)) =
    pass_segment conn new_connection buf len
pass_packet new_connection (some buf) (received len none) = do
  flags ← load8 buf 33
  done (
      if bit_and flags th_syn == 0
      then (ignored, new_connection)
      else (to_new_connection buf, new_connection))

unfoldable pub receive_packet : Bool → ℕ → List Link → ℕ → Option Buf → Run (PassedTo × ℕ)
unfolding pass_packet
receive_packet unix_socket port conns new_connection buf = do
  f ← recv_filter unix_socket port conns buf
  pass_packet new_connection buf f
