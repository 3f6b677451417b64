-- ===== src/Ctcp/Sys/Handshake/Steps.antt =====
-- What each function of the handshake of ctcp_sys_internal.c returns, step by step.
use cs.Base.{
  ℕ, ◌+◌, ◌%◌, ◌^◌, ◌<◌, ◌≡◌, Bool, true, false, ◌==◌, ltb, leb, le→leb, arith, List, [], ◌∷◌,
  Option, none, some, done, ◌>>=◌,
}
use cs.Bytes.{Buf, half_at, word_at, htons, htonl}
use cs.Ctcp.Sys.Convert.{Link}
use cs.Ctcp.Sys.Filter.{th_syn, full_hdr_size, received, recv_filter}
use cs.Ctcp.Sys.Segments.{Numbers, create_tcp_seg}
use cs.Ctcp.Sys.Segments.Sent.{IsSent, create_tcp_seg-IsSent}
use cs.Ctcp.Sys.Handshake.{
  max_num_clients, th_syn_ack, Settings, Endpoint, conn_setup, syn_received, tcp_new_connection,
  connected, take_synack, tcp_handshake,
}

abbrev pub empty : Buf
empty = record { len = 0; at = λ i. 0 }

-- A segment with no data.
pub bare :
    (l : Link) (w : ℕ) (dst : Numbers) (flags : ℕ)
    → flags < 256
    → dst.next_seqno < 2 ^ 32
    → dst.ackno < 2 ^ 32
    → l.ip_addr < 2 ^ 32
    → l.peer_addr < 2 ^ 32
    → (p : Buf) × (n : Numbers) × (create_tcp_seg l w dst flags none 0 ≡ done (p, n))
      × IsSent l w dst flags empty 0 p n
unfolding create_tcp_seg
bare l w dst flags a b c d e =
    create_tcp_seg-IsSent l w dst flags empty 0 (λ i. omega arith) (omega arith) (omega arith) a b c
      d e

same_number : (x y : ℕ) → x ≡ y → (x == y) ≡ true
same_number x y h = ground arith

-- The connection that a SYN opens.
abbrev pub opened : Settings → ℕ → Buf → Endpoint
opened h random p =
    let c = conn_setup h (word_at p 12) (htons (half_at p 20)) random in
    record {
      link = record c.link { their_init_seqno = htonl (word_at p 24) };
      numbers = record c.numbers { ackno = (htonl (word_at p 24) + 1) % 2 ^ 32 };
      send_window = htons (half_at p 34);
    }

syn_received_lem :
    (h : Settings) (random : ℕ) (p : Buf)
    → p.len ≡ 40
    → syn_received h random p ≡ done (opened h random p)
unfolding syn_received ◌>>=◌
syn_received_lem h random p k = rw (
  le→leb 16 p.len (omega arith),
  le→leb 22 p.len (omega arith),
  le→leb 28 p.len (omega arith),
  le→leb 36 p.len (omega arith),
)

pub tcp_new_connection_lem :
    (h : Settings) (num random : ℕ) (p q : Buf) (n : Numbers)
    → num < max_num_clients
    → p.len ≡ 40
    → create_tcp_seg
        (opened h random p).link
        h.recv_window
        (opened h random p).numbers
        th_syn_ack
        none
        0
      ≡ done (q, n)
    → tcp_new_connection h true num random p
      ≡ done (some (record (opened h random p) { numbers = n }, q))
unfolding tcp_new_connection ◌>>=◌
tcp_new_connection_lem h num random p q n few k e =
    let room : leb max_num_clients num ≡ false = ground arith in
    rw (room, syn_received_lem h random p k, e)

-- A SYN-ACK is let through.
syn_ack_passes :
    (u : Bool) (port : ℕ) (conns : List Link) (p : Buf)
    → p.len ≡ 40
    → half_at p 22 ≡ htons port
    → p.at 33 ≡ th_syn_ack
    → recv_filter u port conns (some p) ≡ done (received p.len none)
unfolding recv_filter ◌>>=◌
syn_ack_passes u port conns p k d f =
    let whole : ltb p.len full_hdr_size ≡ false = ground arith in
    rw (
      whole,
      le→leb 24 p.len (omega arith),
      le→leb 34 p.len (omega arith),
      le→leb 22 p.len (omega arith),
      le→leb 16 p.len (omega arith),
      le→leb 28 p.len (omega arith),
      le→leb 32 p.len (omega arith),
      same_number (half_at p 22) (htons port) d,
      f,
    )

-- The client's side once the SYN-ACK `p` is there.
abbrev pub joined : Endpoint → Buf → Endpoint
joined c p = record {
  link = record c.link { their_init_seqno = htonl (word_at p 24) };
  numbers = record c.numbers {
    next_seqno = (c.numbers.next_seqno + 1) % 2 ^ 32;
    ackno = (htonl (word_at p 24) + 1) % 2 ^ 32;
  };
  send_window = htons (half_at p 34);
}

take_synack_lem :
    (h : Settings) (c : Endpoint) (p q : Buf) (n : Numbers)
    → p.len ≡ 40
    → p.at 33 ≡ th_syn_ack
    → create_tcp_seg (joined c p).link h.recv_window (joined c p).numbers 16 none 0 ≡ done (q, n)
    → take_synack h c p ≡ done (connected (record (joined c p) { numbers = n }) (some q))
unfolding take_synack ◌>>=◌
take_synack_lem h c p q n k f e = rw (
  le→leb 36 p.len (omega arith),
  le→leb 34 p.len (omega arith),
  le→leb 28 p.len (omega arith),
  le→leb 32 p.len (omega arith),
  f,
  e,
)

pub tcp_handshake_lem :
    (h : Settings) (c : Endpoint) (can_send : Buf → Bool) (answer : Buf → Option Buf) (p q r : Buf)
    (n m : Numbers)
    → create_tcp_seg c.link h.recv_window c.numbers th_syn none 0 ≡ done (p, n)
    → can_send p ≡ true
    → answer p ≡ some q
    → q.len ≡ 40
    → half_at q 22 ≡ htons h.own_port
    → q.at 33 ≡ th_syn_ack
    → let d = record c { numbers = n } in
      create_tcp_seg (joined d q).link h.recv_window (joined d q).numbers 16 none 0 ≡ done (r, m)
      → tcp_handshake h c can_send answer
        ≡ done (connected (record (joined d q) { numbers = m }) (some r))
unfolding tcp_handshake ◌>>=◌
tcp_handshake_lem h c can_send answer p q r n m e s a k t f g = rw (
  e,
  s,
  a,
  syn_ack_passes h.unix_socket h.own_port ((record c { numbers = n }).link ∷ []) q k t f,
  take_synack_lem h (record c { numbers = n }) q r m k f g,
)
