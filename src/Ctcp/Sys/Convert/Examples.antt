-- ===== src/Ctcp/Sys/Convert/Examples.antt =====
-- A segment with two bytes of data between a host and a peer on the web.
use cs.Base.{ℕ, ◌+◌, ◌≡◌, refl, List, [], ◌∷◌, true, false, arith, done}
use cs.Bytes.{Buf, of_bytes}
use cs.Router.Network.{of_bytes-HasBytes}
use cs.Ctcp.Sys.Convert.{Link, convert_to_datagram, convert_to_ctcp}
use cs.Ctcp.Sys.Convert.Steps.{segment_copy}
use cs.Ctcp.Sys.Convert.Fields.{IsMirror, IsSegment}
use cs.Ctcp.Sys.Convert.Round.{convert_to_ctcp-convert_to_datagram}

abbrev pub host : Link
host = record {
  ip_addr = 16777343;
  port = 9999;
  peer_addr = 33554559;
  peer_port = 80;
  init_seqno = 4294967295;
  their_init_seqno = 70000;
  web = true;
}

abbrev pub peer : Link
peer = record {
  ip_addr = 33554559;
  port = 80;
  peer_addr = 16777343;
  peer_port = 9999;
  init_seqno = 70000;
  their_init_seqno = 4294967295;
  web = false;
}

abbrev segment_bytes : List ℕ
segment_bytes =
    0 ∷ 0 ∷ 0 ∷ 5 ∷ 0 ∷ 0 ∷ 0 ∷ 1 ∷ 0 ∷ 22 ∷ 0 ∷ 0 ∷ 16 ∷ 0 ∷ 0 ∷ 0 ∷ 5 ∷ 160 ∷ 17 ∷ 34 ∷ 72 ∷ 105
    ∷ []

abbrev pub memory : ℕ → ℕ
memory = (of_bytes segment_bytes).at

pub ends : IsMirror host peer
ends = record { mine = refl; theirs = refl; mine_low = omega arith; theirs_low = omega arith }

pub segment : IsSegment host memory 2
segment = record {
  bytes = of_bytes-HasBytes segment_bytes refl;
  few = omega arith;
  len_field = refl;
  pad10 = refl;
  pad11 = refl;
  flags13 = refl;
  flags14 = refl;
  flags15 = refl;
  acks = refl;
}

convert_to_ctcp-convert_to_datagram_example :
    (d : Buf) × (convert_to_datagram host (segment_copy memory 2) (20 + 2) ≡ done d)
    × (convert_to_ctcp peer d ≡ done (segment_copy memory 2))
convert_to_ctcp-convert_to_datagram_example =
    convert_to_ctcp-convert_to_datagram host peer memory 2 ends segment
