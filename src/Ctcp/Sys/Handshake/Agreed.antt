-- ===== src/Ctcp/Sys/Handshake/Agreed.antt =====
-- What the two ends of a connection know after the handshake of ctcp_sys_internal.c.
use cs.Base.{
  ℕ, ◌+◌, ◌%◌, ◌^◌, ◌<◌, ◌≡◌, refl, ap, ◌∙◌, sym, Bool, true, false, arith, Option, none, some, Run,
  done, fault,
}
use cs.Bytes.{Buf, half_at, word_at, htons, htonl}
use cs.Ctcp.Sys.Convert.Fields.{IsMirror}
use cs.Ctcp.Sys.Filter.{th_syn}
use cs.Ctcp.Sys.Filter.Passes.{IsPeer}
use cs.Ctcp.Sys.Segments.{Numbers, create_tcp_seg}
use cs.Ctcp.Sys.Segments.Sent.{IsSent}
use cs.Ctcp.Sys.Handshake.{
  max_num_clients, th_syn_ack, Settings, Endpoint, conn_setup, tcp_new_connection, connected,
  tcp_handshake,
}
use cs.Ctcp.Sys.Handshake.Steps.{
  empty, bare, opened, tcp_new_connection_lem, joined, tcp_handshake_lem,
}

-- The settings fit their fields in a packet.
pub record AreSettings (h : Settings) : Type 0 where
  pub addr_low : h.own_addr < 2 ^ 32
  pub port_low : h.own_port < 2 ^ 16
  pub window_low : h.recv_window < 2 ^ 16

-- Both ends know each other's address, port, initial sequence number and window, and the client goes on with
-- the number that the server waits for.
pub record IsAgreed (hc hs : Settings) (c s : Endpoint) : Type 0 where
  pub mirror : IsMirror c.link s.link
  pub back : IsMirror s.link c.link
  pub peer : IsPeer c.link s.link
  pub peer_back : IsPeer s.link c.link
  pub next : c.numbers.next_seqno ≡ s.numbers.ackno
  pub acked : c.numbers.ackno ≡ (s.numbers.next_seqno + 1) % 2 ^ 32
  pub window : c.send_window ≡ hs.recv_window
  pub window_back : s.send_window ≡ hc.recv_window

-- What a server sends back.
abbrev pub reply_of : Run (Option (Endpoint × Buf)) → Option Buf
reply_of fault = none
reply_of (done none) = none
reply_of (done (some (s, q))) = some q

twice : (x : ℕ) → x < 2 ^ 16 → htons (htons x) ≡ x
twice x h = omega arith

advance :
    (x a : ℕ)
    → x ≡ (a + 0) % 2 ^ 32
    → a < 2 ^ 32
    → ((x + 1) % 2 ^ 32 + 0) % 2 ^ 32 ≡ (a + 1) % 2 ^ 32
advance x a e h = omega arith

same_low : (x y : ℕ) → x ≡ y → y < 2 ^ 32 → x < 2 ^ 32
same_low x y e h = omega arith

still : (x : ℕ) → x < 2 ^ 32 → x ≡ (x + 0) % 2 ^ 32
still x h = omega arith

module _ (hc hs : Settings) (a b : ℕ) (kc : AreSettings hc) (ks : AreSettings hs)
    (a_low : a < 2 ^ 32) (b_low : b < 2 ^ 32) where
  abbrev c : Endpoint
  c = conn_setup hc hs.own_addr hs.own_port a

  agreed :
      (p q r : Buf) (n m k : Numbers)
      → IsSent c.link hc.recv_window c.numbers th_syn empty 0 p n
      → IsSent (opened hs b p).link hs.recv_window (opened hs b p).numbers th_syn_ack empty 0 q m
      → (let d = record c { numbers = n } in
          IsSent (joined d q).link hc.recv_window (joined d q).numbers 16 empty 0 r k)
      → IsAgreed hc hs
          (record (joined (record c { numbers = n }) q) { numbers = k })
          (record (opened hs b p) { numbers = m })
  agreed p q r n m k first second third = record {
    mirror = record {
      mine = first.seq;
      theirs = sym second.seq;
      mine_low = a_low;
      theirs_low = same_low (htonl (word_at q 24)) b second.seq b_low;
    };
    back = record {
      mine = second.seq;
      theirs = sym first.seq;
      mine_low = b_low;
      theirs_low = same_low (htonl (word_at p 24)) a first.seq a_low;
    };
    peer = record {
      port = refl;
      peer_port = own_port;
      peer_addr = first.source;
      port_low = kc.port_low;
      addr_low = kc.addr_low;
    };
    peer_back = record {
      port = own_port;
      peer_port = refl;
      peer_addr = refl;
      port_low = ks.port_low;
      addr_low = ks.addr_low;
    };
    next =
        ap (λ (z : Numbers). z.next_seqno) third.left
        ∙ advance n.next_seqno a (ap (λ (z : Numbers). z.next_seqno) first.left) a_low
        ∙ ap (λ (z : ℕ). (z + 1) % 2 ^ 32) (sym first.seq)
        ∙ sym (ap (λ (z : Numbers). z.ackno) second.left);
    acked =
        ap (λ (z : Numbers). z.ackno) third.left
        ∙ ap (λ (z : ℕ). (z + 1) % 2 ^ 32)
            (second.seq ∙ still b b_low ∙ sym (ap (λ (z : Numbers). z.next_seqno) second.left));
    window = ap htons second.window ∙ twice hs.recv_window ks.window_low;
    window_back = ap htons first.window ∙ twice hc.recv_window kc.window_low;
  }
    where
      own_port : htons (half_at p 20) ≡ hc.own_port
      own_port = ap htons first.ports.0 ∙ twice hc.own_port kc.port_low

  -- The handshake over raw sockets of a client with a server that has room for it, when the client dials the address
  -- and port that the server has as its own, the SYN is sent and no packet is lost: the client's SYN opens a
  -- connection on the server, the SYN-ACK that the server answers with connects the client, and then the two ends know each
  -- other's addresses, ports, initial sequence numbers and windows, and the client goes on with the number that the
  -- server waits for. The settings and the two random numbers must fit their fields.
  pub tcp_handshake-IsAgreed :
      (num : ℕ) (can_send : Buf → Bool)
      → num < max_num_clients
      → hc.unix_socket ≡ false
      → hs.unix_socket ≡ false
      → ((p : Buf) → can_send p ≡ true)
      → (syn : Buf) × (reply : Buf) × (ack : Buf) × (n : Numbers) × (s : Endpoint) × (c' : Endpoint)
        × (create_tcp_seg c.link hc.recv_window c.numbers th_syn none 0 ≡ done (syn, n))
        × (tcp_new_connection hs true num b syn ≡ done (some (s, reply)))
        × (tcp_handshake hc c can_send (λ p. reply_of (tcp_new_connection hs true num b p))
            ≡ done (connected c' (some ack)))
        × IsAgreed hc hs c' s
  tcp_handshake-IsAgreed num can_send few raw raw_server sends =
      let (p, n, e, first) =
        bare c.link hc.recv_window c.numbers th_syn (omega arith) a_low (omega arith) kc.addr_low
          ks.addr_low in
      let (q, m, f, second) =
        bare (opened hs b p).link hs.recv_window (opened hs b p).numbers th_syn_ack (omega arith)
          b_low (omega arith) ks.addr_low
          (same_low (word_at p 12) hc.own_addr first.source kc.addr_low) in
      let d = record c { numbers = n } in
      let (r, k, g, third) =
        bare (joined d q).link hc.recv_window (joined d q).numbers 16 (omega arith) (omega arith)
          (omega arith) kc.addr_low ks.addr_low in
      let accepted = tcp_new_connection_lem hs num b p q m few first.size f in
      let port : half_at q 22 ≡ htons hc.own_port =
        second.ports.1 ∙ ap htons (ap htons first.ports.0 ∙ twice hc.own_port kc.port_low) in
      (
        p,
        q,
        r,
        n,
        record (opened hs b p) { numbers = m },
        record (joined d q) { numbers = k },
        e,
        accepted,
        tcp_handshake_lem hc c can_send (λ z. reply_of (tcp_new_connection hs true num b z)) p q r n
            k e (sends p) (ap reply_of accepted) second.size port second.flag g,
        agreed p q r n m k first second third,
      )
