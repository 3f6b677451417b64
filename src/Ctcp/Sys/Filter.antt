-- ===== src/Ctcp/Sys/Filter.antt =====
-- Which received packets reach a connection: `recv_filter` of ctcp_sys_internal.c. What the socket's `recv`
-- gives is an argument: none is its failure.
pub mod Passes
use cs.Base.{
  ℕ, ◌%◌, ◌^◌, Bool, true, false, not, ◌&&◌, ◌||◌, ◌==◌, ltb, leb, if◌then◌else◌, List, [], ◌∷◌,
  Option, none, some, Run, done, ◌>>=◌, bit_and,
}
use cs.Bytes.{Buf, load8, load16, load32, htons, htonl}
use cs.Ctcp.Sys.Convert.{Link}

abbrev pub full_hdr_size : ℕ
full_hdr_size = 40

abbrev pub th_syn : ℕ
th_syn = 2

abbrev pub th_rst : ℕ
th_rst = 4

-- `exited`: the peer's reset ends the program.
pub data Filtered : Type 0 where
  failed : Filtered
  dropped : Filtered
  exited : Filtered
  received : ℕ → Option Link → Filtered

-- Whether a packet's source and numbers are those that a connection expects.
abbrev pub expects : Bool → Link → ℕ → ℕ → ℕ → ℕ → Bool
expects unix_socket l sport saddr seq ack =
    (l.peer_port == htons sport)
    && (unix_socket || (not unix_socket && (l.peer_addr == saddr)))
    && leb l.their_init_seqno (htonl seq)
    && leb l.init_seqno (htonl ack)

unfoldable pub find_connection : (Link → Bool) → ℕ → List Link → Filtered
find_connection test r [] = dropped
find_connection test r (l ∷ ls) = if test l then received r (some l) else find_connection test r ls

unfoldable pub filter_packet : Bool → ℕ → List Link → Buf → Run Filtered
filter_packet unix_socket port conns buf = do
  dport ← load16 buf 22
  flags ← load8 buf 33
  sport ← load16 buf 20
  saddr ← load32 buf 12
  seq ← load32 buf 24
  ack ← load32 buf 28
  if not (dport == htons port)
      then done dropped
      else if not (bit_and flags th_rst == 0)
      then done exited
      else if not (bit_and flags th_syn == 0)
      then done (received buf.len none)
      else done (find_connection (λ l. expects unix_socket l sport saddr seq ack) buf.len conns)

unfoldable pub recv_filter : Bool → ℕ → List Link → Option Buf → Run Filtered
unfolding filter_packet
recv_filter unix_socket port conns none = done failed
recv_filter unix_socket port conns (some buf) =
    if ltb buf.len full_hdr_size then done dropped else filter_packet unix_socket port conns buf
