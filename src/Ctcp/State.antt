-- ===== src/Ctcp/State.antt =====
-- The state of a cTCP connection (`struct ctcp_state` and `wrapped_ctcp_segment_t` of ctcp.c) and the
-- fields of `ctcp_segment_t` (ctcp_sys.h): 0 the sequence number, 4 the acknowledgement, 8 the length,
-- 12 the flags, 16 the window, 18 the checksum, 20 the data. All but the flags stand in network order.
use cs.Base.{ℕ, ◌+◌, ◌-◌, ◌%◌, ◌^◌, List, Option, Bool, Run, done, ◌>>=◌}
use cs.Bytes.{Buf, half_at, word_at, load16, load32, htons, htonl}

abbrev pub header_len : ℕ
header_len = 20

-- ntohl(TH_ACK) and ntohl(TH_FIN)
abbrev pub ack_flag : ℕ
ack_flag = htonl 16

abbrev pub fin_flag : ℕ
fin_flag = htonl 1

-- wrapped_ctcp_segment_t. `bbr_pacing_sendtime` is written and never read.
pub record Wrapped : Type 0 where
  pub num_xmits : ℕ
  pub last_send : ℕ
  pub actual_sendtime : ℕ
  pub bytes_acked : ℕ
  pub segment : Buf

-- The part of BBR that a decision reads: the state (0 startup, 1 drain, 2 and 3 probing), the ten
-- samples of the bandwidth with the place of the next, and the largest one at the last step. The filter
-- of round-trip times and the gains are floating-point numbers that end in a log and in
-- `bbr_pacing_sendtime`.
pub record Bbr : Type 0 where
  pub state : ℕ
  pub bandwidths : List ℕ
  pub index : ℕ
  pub last_max : ℕ

-- The connection, with what was handed to `conn_send`, the newest first, and to `conn_output`, in order;
-- `closed` tells that the end was handed to it too.
pub record State : Type 0 where
  pub recv_window : ℕ
  pub send_window : ℕ
  pub rt_timeout : ℕ
  pub unacked : List Wrapped
  pub buffered : List Buf
  pub last_output : Option Buf
  pub rx_fin : ℕ
  pub tx_eof : ℕ
  pub seqno_last_shipped : ℕ
  pub receiver_has_acked : ℕ
  pub next_ackno : ℕ
  pub bbr : Bbr
  pub sent : List Buf
  pub output : List ℕ
  pub closed : Bool

abbrev pub seqno_of : Buf → ℕ
seqno_of b = htonl (word_at b 0)

abbrev pub len_of : Buf → ℕ
len_of b = htons (half_at b 8)

abbrev pub load_seqno : Buf → Run ℕ
load_seqno b = do w ← load32 b 0; done (htonl w)

abbrev pub load_len : Buf → Run ℕ
load_len b = do h ← load16 b 8; done (htons h)

-- The last sequence number of a segment, `seqno + len - sizeof(ctcp_segment_t) - 1` in 32 bits.
abbrev pub end_of : ℕ → ℕ → ℕ
end_of seqno len = (seqno + len + (2 ^ 32 - header_len - 1)) % 2 ^ 32
