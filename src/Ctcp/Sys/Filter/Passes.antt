-- ===== src/Ctcp/Sys/Filter/Passes.antt =====
-- Which packets of its peer a connection gets.
use cs.Base.{
  ℕ, ◌+◌, ◌%◌, ◌^◌, ◌<◌, ◌≡◌, refl, ap, ◌∙◌, Bool, true, false, not, ◌&&◌, ◌||◌, ◌==◌, ltb, leb,
  le→leb, arith, if◌then◌else◌, [], ◌∷◌, some, done, ◌>>=◌, bit_and,
}
use cs.Bytes.{Buf, half_at, word_at, htons, htonl}
use cs.Bytes.Words.{word_bytes}
use cs.Ctcp.Ack.{net_round, net_round16}
use cs.Ctcp.Sys.Convert.{Link, convert_to_datagram}
use cs.Ctcp.Sys.Convert.Steps.{segment_copy, packet, with_sum, sum_of}
use cs.Ctcp.Sys.Convert.Agree.{half_bytes}
use cs.Ctcp.Sys.Convert.Fields.{IsMirror, IsSegment, flags_byte, htonl-lt}
use cs.Ctcp.Sys.Convert.Round.{convert_to_datagram-done}
use cs.Ctcp.Sys.Filter.{
  th_syn, th_rst, full_hdr_size, dropped, received, expects, find_connection, recv_filter,
}

-- Each end knows the other's address and port.
pub record IsPeer (l r : Link) : Type 0 where
  pub port : l.peer_port ≡ r.port
  pub peer_port : r.peer_port ≡ l.port
  pub peer_addr : r.peer_addr ≡ l.ip_addr
  pub port_low : l.port < 2 ^ 16
  pub addr_low : l.ip_addr < 2 ^ 32

-- A segment's number, in the order of the host.
abbrev pub number_at : Buf → ℕ → ℕ
number_at b off = htonl (word_at b off)

-- Whether neither of the segment's numbers wraps around where the packet counts from the initial ones.
abbrev pub unwrapped : Link → Buf → Bool
unwrapped l b =
    ltb (number_at b 0 + l.init_seqno) (2 ^ 32) && ltb (number_at b 4 + l.their_init_seqno) (2 ^ 32)

-- A sum that wraps around is less than its second summand.
leb-wrapped : (w i : ℕ) → w < 2 ^ 32 → i < 2 ^ 32 → leb i ((w + i) % 2 ^ 32) ≡ ltb (w + i) (2 ^ 32)
leb-wrapped w i h k = ground arith

same_number : (n : ℕ) → (n == n) ≡ true
same_number n = ground arith

both_ways : (u : Bool) → (u || (not u && true)) ≡ true
both_ways true = refl
both_ways false = refl

module _ (l r : Link) (o : ℕ → ℕ) (m : ℕ) (peer : IsPeer l r) (mirror : IsMirror l r)
    (v : IsSegment l o m) (c s : ℕ) where
  abbrev b : Buf
  b = segment_copy o m

  abbrev d : Buf
  d = with_sum (packet l b m c) s

  seq_test :
      leb r.their_init_seqno (htonl (word_at d 24)) ≡ ltb (number_at b 0 + l.init_seqno) (2 ^ 32)
  seq_test =
      let w = number_at b 0 in
      ap (λ (q : ℕ). leb r.their_init_seqno q)
        (net_round ((w + l.init_seqno) % 2 ^ 32) (omega arith))
      ∙ ap (λ (q : ℕ). leb q ((w + l.init_seqno) % 2 ^ 32)) mirror.mine
      ∙ leb-wrapped w l.init_seqno (htonl-lt l r o m mirror v c s (word_at b 0)) mirror.mine_low

  ack_test :
      leb r.init_seqno (htonl (word_at d 28)) ≡ ltb (number_at b 4 + l.their_init_seqno) (2 ^ 32)
  ack_test =
      let w = number_at b 4 in
      ap (λ (q : ℕ). leb r.init_seqno q)
        (net_round ((w + l.their_init_seqno) % 2 ^ 32) (omega arith))
      ∙ ap (λ (q : ℕ). leb q ((w + l.their_init_seqno) % 2 ^ 32)) mirror.theirs
      ∙ leb-wrapped w l.their_init_seqno (htonl-lt l r o m mirror v c s (word_at b 4))
          mirror.theirs_low

  port_test : (r.peer_port == htons (half_at d 20)) ≡ true
  port_test =
      let port_low = peer.port_low in
      ap (λ (q : ℕ). r.peer_port == q) (net_round16 l.port (omega arith))
      ∙ ap (λ (q : ℕ). q == l.port) peer.peer_port
      ∙ same_number l.port

  addr_test : (r.peer_addr == word_at d 12) ≡ true
  addr_test =
      ap (λ (q : ℕ). r.peer_addr == q) (word_bytes l.ip_addr peer.addr_low)
      ∙ ap (λ (q : ℕ). q == l.ip_addr) peer.peer_addr
      ∙ same_number l.ip_addr

  expects_lem :
      (unix_socket : Bool)
      → expects unix_socket r (half_at d 20) (word_at d 12) (word_at d 24) (word_at d 28)
        ≡ unwrapped l b
  expects_lem unix_socket = rw (port_test, addr_test, both_ways unix_socket, seq_test, ack_test)

  dport_test : (half_at d 22 == htons r.port) ≡ true
  dport_test =
      ap (λ (q : ℕ). q == htons r.port) (half_bytes (htons l.peer_port) (omega arith))
      ∙ ap (λ (q : ℕ). htons q == htons r.port) peer.port
      ∙ same_number (htons r.port)

  flags_test : (n : ℕ) → bit_and (o 12) n ≡ 0 → not (bit_and (d.at 33) n == 0) ≡ false
  flags_test n h =
      ap (λ (q : ℕ). not (bit_and q n == 0)) (flags_byte l r o m mirror v c s)
      ∙ ap (λ (q : ℕ). not (q == 0)) h

  pub filtered :
      (unix_socket : Bool)
      → bit_and (o 12) th_rst ≡ 0
      → bit_and (o 12) th_syn ≡ 0
      → recv_filter unix_socket r.port (r ∷ []) (some d)
        ≡ done (if unwrapped l b then received (40 + m) (some r) else dropped)
  unfolding recv_filter find_connection ◌>>=◌
  filtered unix_socket rst syn =
      let whole : ltb (40 + m) full_hdr_size ≡ false = ground arith in
      rw (
        whole,
        le→leb 24 (40 + m) (omega arith),
        le→leb 34 (40 + m) (omega arith),
        le→leb 22 (40 + m) (omega arith),
        le→leb 16 (40 + m) (omega arith),
        le→leb 28 (40 + m) (omega arith),
        le→leb 32 (40 + m) (omega arith),
        dport_test,
        flags_test th_rst rst,
        flags_test th_syn syn,
        expects_lem unix_socket,
      )

-- A host with one connection gets a segment of its peer, of at most 1,460 bytes and with neither SYN nor RST,
-- exactly when neither the sequence number nor the acknowledgement number wraps around 2 ^ 32 where the packet
-- counts from the initial numbers; all others are dropped. The peer always makes the packet. The two ends must
-- know each other's addresses, ports and initial numbers, and the segment's length, padding and flags must be
-- right.
pub recv_filter-convert_to_datagram :
    (l r : Link) (o : ℕ → ℕ) (m : ℕ) (unix_socket : Bool)
    → IsPeer l r
    → IsMirror l r
    → IsSegment l o m
    → bit_and (o 12) th_rst ≡ 0
    → bit_and (o 12) th_syn ≡ 0
    → (d : Buf) × (convert_to_datagram l (segment_copy o m) (20 + m) ≡ done d)
      × (recv_filter unix_socket r.port (r ∷ []) (some d)
          ≡ done (if unwrapped l (segment_copy o m) then received (40 + m) (some r) else dropped))
recv_filter-convert_to_datagram l r o m unix_socket peer mirror v rst syn =
    let (c, k, t, e, _, _, _, _) = convert_to_datagram-done l r o m mirror v in
    let s = sum_of t k (half_at (segment_copy o m) 18) in
    (
      with_sum (packet l (segment_copy o m) m c) s,
      e,
      filtered l r o m peer mirror v c s unix_socket rst syn,
    )
