-- ===== src/Ctcp/Sys/Segments/Sent.antt =====
-- What `create_tcp_seg` and `create_tcp_rst` of ctcp_sys_internal.c send, and what the filter makes of a reset.
use cs.Base.{
  ℕ, ◌+◌, ◌*◌, ◌%◌, ◌^◌, ◌≤◌, ◌<◌, ◌≡◌, refl, ap, ◌∙◌, sym, Bool, true, ◌==◌, le→leb, arith, List,
  some, done, ◌>>=◌,
}
use cs.Bytes.{Buf, HasBytes, patch, byte_of, half_at, word_at, htons, htonl}
use cs.Checksum.Header.{patch-bytes}
use cs.Bytes.Words.{word_bytes}
use cs.Ctcp.Ack.{net_round, net_round16}
use cs.Ctcp.Sys.Convert.{Link, cksum_tcp, create_datagram}
use cs.Ctcp.Sys.Convert.Agree.{copy_data_lem, half_bytes, patch_back, patch_in, patch_out}
use cs.Ctcp.Sys.Convert.Steps.{
  set-bytes, cksum_tcp-done, datagram, datagram-HasBytes, create_datagram_lem, with_sum,
}
use cs.Ctcp.Sys.Filter.{exited, th_rst, recv_filter}
use cs.Ctcp.Sys.Segments.{Numbers, create_tcp_rst, window_of, seg_header, create_tcp_seg}

-- The bytes of a packet whose header has the given fields, on `h`.
abbrev tcp_block : (ℕ → ℕ) → ℕ → ℕ → ℕ → ℕ → ℕ → ℕ → ℕ → ℕ
tcp_block h sport dport seq ack flags window =
    let p =
      patch (patch (patch (patch h 20 2 (byte_of sport)) 22 2 (byte_of dport)) 24 4 (byte_of seq))
        28 4 (byte_of ack) in
    patch (patch (patch p 32 1 (byte_of 0x50)) 33 1 (byte_of flags)) 34 2 (byte_of window)

tcp_block-bytes :
    (h : ℕ → ℕ) (sport dport seq ack flags window : ℕ)
    → ((i : ℕ) → h i < 256)
    → (i : ℕ) → tcp_block h sport dport seq ack flags window i < 256
tcp_block-bytes h sport dport seq ack flags window k = set-bytes _ 34 2 window (
    set-bytes _ 33 1 flags (
      set-bytes _ 32 1 0x50 (
        set-bytes _ 28 4 ack
          (set-bytes _ 24 4 seq (set-bytes _ 22 2 dport (set-bytes _ 20 2 sport k))))))

tcp_block-data :
    (h : ℕ → ℕ) (sport dport seq ack flags window j : ℕ)
    → tcp_block h sport dport seq ack flags window (40 + j) ≡ h (40 + j)
tcp_block-data h sport dport seq ack flags window j =
    header (byte_of sport) (byte_of dport) (byte_of seq) (byte_of ack) (byte_of 0x50)
      (byte_of flags) (byte_of window) (40 + j) (omega arith)
  where
    header :
        (p q r t u v w : ℕ → ℕ) (i : ℕ)
        → 40 ≤ i
        → patch
            (patch
              (patch (patch (patch (patch (patch h 20 2 p) 22 2 q) 24 4 r) 28 4 t) 32 1 u)
              33
              1
              v)
            34
            2
            w
            i
          ≡ h i
    header p q r t u v w i k = ground arith

same_number : (x y : ℕ) → x ≡ y → (x == y) ≡ true
same_number x y h = ground arith

-- A reset to `port` ends the program of the host that receives it, whatever address, port and number it came
-- from and whatever connections the host has. `create_tcp_rst` always returns.
pub recv_filter-create_tcp_rst :
    (l : Link) (ip_dst port_src port seqno : ℕ) (unix_socket : Bool) (conns : List Link)
    → (d : Buf) × (create_tcp_rst l ip_dst port_src (htons port) seqno ≡ done d)
      × (recv_filter unix_socket port conns (some d) ≡ done exited)
unfolding create_tcp_rst recv_filter ◌>>=◌
recv_filter-create_tcp_rst l ip_dst port_src port seqno unix_socket conns =
    let (c, e) = create_datagram_lem l.ip_addr ip_dst 0 (omega arith) in
    let h = (datagram l.ip_addr ip_dst 40 c).at in
    let p : Buf = record { len = 40; at = tcp_block h port_src (htons port) seqno 0 th_rst 0 } in
    let (t, tcp, _) =
      cksum_tcp-done p 0
        (tcp_block-bytes h port_src (htons port) seqno 0 th_rst 0
          (datagram-HasBytes l.ip_addr ip_dst 40 c))
        refl (omega arith) in
    let dport : (byte_of (htons port) 0 + byte_of (htons port) 1 * 256 == htons port) ≡ true =
      same_number _ _ (half_bytes (htons port) (omega arith)) in
    (with_sum p t, rw (e, tcp) refl, rw dport)

-- The packet `p` with `m` bytes of data and the numbers `n` that are left: the addresses, ports, numbers, flags
-- and window stand where a receiver looks for them, the data follows, and the checksum is that of the packet
-- with 0 in its place.
pub record IsSent (l : Link) (recv_window : ℕ) (dst : Numbers) (flags : ℕ) (payload : Buf) (m : ℕ)
    (p : Buf) (n : Numbers) : Type 0 where
  pub size : p.len ≡ 40 + m
  pub total : htons (half_at p 2) ≡ 40 + m
  pub source : word_at p 12 ≡ l.ip_addr
  pub target : word_at p 16 ≡ l.peer_addr
  pub ports : (half_at p 20 ≡ htons l.port) × (half_at p 22 ≡ htons l.peer_port)
  pub seq : htonl (word_at p 24) ≡ dst.next_seqno
  pub ack : htonl (word_at p 28) ≡ dst.ackno
  pub flag : p.at 33 ≡ flags
  pub window : half_at p 34 ≡ window_of flags recv_window
  pub data_at : (j : ℕ) → j < m → p.at (40 + j) ≡ payload.at j
  pub summed : cksum_tcp (with_sum p 0) m ≡ done (half_at p 36)
  pub left : n ≡ record {
    seqno = dst.next_seqno;
    next_seqno = (dst.next_seqno + m) % 2 ^ 32;
    ackno = dst.ackno;
  }

byte_small : (x : ℕ) → x < 256 → byte_of x 0 ≡ x
byte_small x h = omega arith

htons-lt : (x : ℕ) → htons x < 2 ^ 16
htons-lt x = omega arith

window_of-lt : (flags w : ℕ) → window_of flags w < 2 ^ 16
window_of-lt flags w = let h = htons-lt w in ground arith

module _ (l : Link) (recv_window : ℕ) (dst : Numbers) (flags : ℕ) (payload : Buf) (m : ℕ)
    (bytes : HasBytes payload) (few : m ≤ 1440) (enough : m ≤ payload.len) (small : flags < 256)
    (seq_low : dst.next_seqno < 2 ^ 32) (ack_low : dst.ackno < 2 ^ 32) (own : l.ip_addr < 2 ^ 32)
    (other : l.peer_addr < 2 ^ 32) where
  module _ (c : ℕ) where
    abbrev head : ℕ → ℕ
    head = (datagram l.ip_addr l.peer_addr (40 + m) c).at

    abbrev filled : ℕ → ℕ
    filled = patch head 40 m (λ i. payload.at (0 + i))

    abbrev fields : ℕ → ℕ
    fields =
        tcp_block filled (htons l.port) (htons l.peer_port) (htonl dst.next_seqno) (htonl dst.ackno)
          flags (window_of flags recv_window)

    abbrev unsummed : Buf
    unsummed = record { len = 40 + m; at = patch fields 36 2 (byte_of 0) }

    unsummed-HasBytes : HasBytes unsummed
    unsummed-HasBytes = set-bytes _ 36 2 0 (
        tcp_block-bytes filled (htons l.port) (htons l.peer_port) (htonl dst.next_seqno)
          (htonl dst.ackno) flags (window_of flags recv_window)
          (patch-bytes head 40 m (λ i. payload.at (0 + i))
            (datagram-HasBytes l.ip_addr l.peer_addr (40 + m) c) (λ i. bytes (0 + i))))

    carried : (t j : ℕ) → j < m → (with_sum unsummed t).at (40 + j) ≡ payload.at j
    carried t j h =
        patch_out unsummed.at 36 2 (byte_of t) (40 + j) (omega arith)
        ∙ patch_out fields 36 2 (byte_of 0) (40 + j) (omega arith)
        ∙ tcp_block-data filled (htons l.port) (htons l.peer_port) (htonl dst.next_seqno)
            (htonl dst.ackno) flags (window_of flags recv_window) j
        ∙ patch_in head 40 m (λ i. payload.at (0 + i)) j h
        ∙ ap payload.at zero_plus
      where
        zero_plus : 0 + j ≡ j
        zero_plus = omega arith

    seg_header_lem :
        seg_header l recv_window dst flags (record { len = 40 + m; at = filled }) ≡ done unsummed
    unfolding seg_header ◌>>=◌
    seg_header_lem = rw (
      le→leb 22 (40 + m) (omega arith),
      le→leb 24 (40 + m) (omega arith),
      le→leb 28 (40 + m) (omega arith),
      le→leb 32 (40 + m) (omega arith),
      le→leb 33 (40 + m) (omega arith),
      le→leb 34 (40 + m) (omega arith),
      le→leb 36 (40 + m) (omega arith),
      le→leb 38 (40 + m) (omega arith),
    )

    sent :
        (t : ℕ)
        → cksum_tcp unsummed m ≡ done t
        → t < 2 ^ 16
        → IsSent l recv_window dst flags payload m (with_sum unsummed t) (record {
          seqno = dst.next_seqno;
          next_seqno = (dst.next_seqno + m) % 2 ^ 32;
          ackno = dst.ackno;
        })
    sent t e h = record {
      size = refl;
      total = net_round16 (40 + m) (omega arith);
      source = word_bytes l.ip_addr own;
      target = word_bytes l.peer_addr other;
      ports = (
        half_bytes (htons l.port) (htons-lt l.port),
        half_bytes (htons l.peer_port) (htons-lt l.peer_port),
      );
      seq = net_round dst.next_seqno seq_low;
      ack = net_round dst.ackno ack_low;
      flag = byte_small flags small;
      window = half_bytes (window_of flags recv_window) (window_of-lt flags recv_window);
      data_at = carried t;
      summed =
          ap (λ (f : ℕ → ℕ). cksum_tcp (record { len = 40 + m; at = f }) m)
            (patch_back fields 36 2 (byte_of 0) (byte_of t))
          ∙ e
          ∙ ap (λ (q : ℕ). done q) (sym (half_bytes t h));
      left = refl;
    }

  -- `create_tcp_seg` always returns, for up to 1,440 bytes of data: its packet has the connection's addresses,
  -- ports, next sequence number and acknowledgement number, the flags, the data and a right TCP checksum, and the
  -- connection's numbers go on by the length of the data. The data must be bytes, and there must be enough of
  -- it, the flags must fit a byte, the numbers and addresses 32 bits.
  pub create_tcp_seg-IsSent :
      (p : Buf) × (n : Numbers) × (create_tcp_seg l recv_window dst flags (some payload) m
        ≡ done (p, n))
      × IsSent l recv_window dst flags payload m p n
  unfolding create_tcp_seg ◌>>=◌
  create_tcp_seg-IsSent =
      let (c, e) = create_datagram_lem l.ip_addr l.peer_addr m few in
      let (t, tcp, ft) = cksum_tcp-done (unsummed c) m (unsummed-HasBytes c) refl few in
      let k : (20 + m) % 2 ^ 16 ≡ 20 + m = omega arith in
      let made : create_datagram l.ip_addr l.peer_addr ((20 + m) % 2 ^ 16)
          ≡ done (datagram l.ip_addr l.peer_addr (40 + m) c) =
        ap (λ (q : ℕ). create_datagram l.ip_addr l.peer_addr q) k ∙ e in
      (
        with_sum (unsummed c) t,
        record {
          seqno = dst.next_seqno;
          next_seqno = (dst.next_seqno + m) % 2 ^ 32;
          ackno = dst.ackno;
        },
        rw (
          made,
          copy_data_lem (datagram l.ip_addr l.peer_addr (40 + m) c) payload 40 0 m (omega arith)
              (omega arith),
          seg_header_lem c,
          tcp,
          le→leb 38 (40 + m) (omega arith),
        ),
        sent c t tcp ft,
      )
