-- ===== src/Ctcp/Sys/Unreliable/Examples.antt =====
-- The segment of Ctcp/Sys/Convert/Examples between two hosts whose numbers do not wrap around, sent with and without faults.
use cs.Base.{◌+◌, ◌%◌, ◌≡◌, refl, [], ◌∷◌, true, false, arith, some, done}
use cs.Bytes.{Buf}
use cs.Ctcp.Sys.Convert.Steps.{segment_copy}
use cs.Ctcp.Sys.Convert.{Link}
use cs.Ctcp.Sys.Convert.Fields.{IsMirror, IsSegment}
use cs.Ctcp.Sys.Filter.Passes.{IsPeer}
use cs.Ctcp.Sys.Convert.Examples.{host, peer, memory, segment}
use cs.Ctcp.Sys.Loop.{to_receive, receive_packet}
use cs.Ctcp.Sys.Unreliable.{Luck, Wire, returned, sent_bytes, conn_send}
use cs.Ctcp.Sys.Unreliable.Faultless.{IsFaultless, conn_send-receive_packet}

abbrev low_host : Link
low_host = record host { init_seqno = 1000 }

abbrev low_peer : Link
low_peer = record peer { their_init_seqno = 1000 }

known : IsPeer low_host low_peer
known = record {
  port = refl;
  peer_port = refl;
  peer_addr = refl;
  port_low = omega arith;
  addr_low = omega arith;
}

ends : IsMirror low_host low_peer
ends = record { mine = refl; theirs = refl; mine_low = omega arith; theirs_low = omega arith }

low_segment : IsSegment low_host memory 2
low_segment = record {
  bytes = segment.bytes;
  few = omega arith;
  len_field = refl;
  pad10 = refl;
  pad11 = refl;
  flags13 = refl;
  flags14 = refl;
  flags15 = refl;
  acks = refl;
}

abbrev sound : Wire
sound = record {
  rand = λ k. k % 1000;
  faults = record { tester = false; drop = 0; duplicate = 0; delay = 0; corrupt = 0 };
  link = low_host;
  sendto = λ d. some d.len;
  forks_copy = true;
  forks_late = λ level. true;
}

abbrev noisy : Wire
noisy = record sound {
  faults = record { tester = false; drop = 0; duplicate = 50; delay = 50; corrupt = 50 };
}

abbrev luck : Luck
luck = record { did = false; draws = 3 }

sound-IsFaultless : IsFaultless sound
sound-IsFaultless = record {
  no_drop = refl;
  no_duplicate = refl;
  no_delay = refl;
  no_corrupt = refl;
  random = λ k. omega arith;
}

conn_send-receive_packet_example :
    (d : Buf) × (l' : Luck) × (conn_send sound false luck
        (record { len = 20 + 2; at = memory })
        (20 + 2)
      ≡ done (record { sent = some d; fate = returned (sent_bytes (some d.len)); luck = l' } ∷ []))
    × (receive_packet false 80 (low_peer ∷ []) 0 (some d)
        ≡ done (to_receive low_peer (segment_copy memory 2) (20 + 2), 0))
conn_send-receive_packet_example =
    conn_send-receive_packet sound low_peer luck memory 2 false 0 sound-IsFaultless known ends
      low_segment refl refl refl (λ e. absurd (omega arith))
