-- ===== src/Ctcp/Sys/Convert/Steps.antt =====
-- What the functions of ctcp_sys_internal.c that translate segments leave in memory, step by step.
use cs.Base.{
  ℕ, ◌+◌, ◌-◌, ◌%◌, ◌^◌, ◌≤◌, ◌<◌, ◌≡◌, ap, if◌then◌else◌, le→leb, arith, done, ◌>>=◌, bit_or,
}
use cs.Bytes.{Buf, HasBytes, patch, byte_of, half_at, word_at, htons, htonl}
use cs.Checksum.{cksum}
use cs.Checksum.Laws.{cksum-IsChecksum}
use cs.Checksum.Header.{patch-bytes, byte_of-bytes}
use cs.Ctcp.Sys.Convert.{
  Link, ip_id, default_ttl, th_ack, cksum_tcp, ip_header, create_datagram, tcp_header,
  convert_to_datagram,
}
use cs.Ctcp.Sys.Convert.Agree.{copy_data_lem, patch_back}

pub set-bytes :
    (old : ℕ → ℕ) (off n v : ℕ)
    → ((i : ℕ) → old i < 256)
    → (i : ℕ) → patch old off n (byte_of v) i < 256
set-bytes old off n v h = patch-bytes old off n (byte_of v) h (byte_of-bytes v)

-- The packet of the pseudo-header and the TCP segment.
abbrev pub pseudo : Buf → ℕ → Buf
pseudo p m =
    let h = patch (patch (λ i. 0) 0 4 (byte_of (word_at p 12))) 4 4 (byte_of (word_at p 16)) in
    record {
      len = 32 + m;
      at =
          patch (patch (patch h 9 1 (byte_of 6)) 10 2 (byte_of (htons ((20 + m) % 2 ^ 16)))) 12
            (20 + m) (λ i. p.at (20 + i));
    }

-- The checksum of a packet with `m` bytes of data exists.
pub cksum_tcp-done :
    (p : Buf) (m : ℕ)
    → HasBytes p
    → p.len ≡ 40 + m
    → m ≤ 1440
    → (t : ℕ) × (cksum_tcp p m ≡ done t) × (t < 2 ^ 16)
unfolding cksum_tcp ◌>>=◌
cksum_tcp-done p m bytes size few =
    let q = pseudo p m in
    let whole : HasBytes q =
      patch-bytes _ 12 (20 + m) _
        (set-bytes _ 10 2 (htons ((20 + m) % 2 ^ 16)) (
          set-bytes _ 9 1 6
            (set-bytes _ 4 4 (word_at p 16) (set-bytes _ 0 4 (word_at p 12) (λ i. omega arith)))))
        (λ i. bytes (20 + i)) in
    let (t, e, k) = cksum-IsChecksum q 0 (m + 32) whole (omega arith) (omega arith) in
    (
      t,
      rw
          (
            le→leb 16 p.len (omega arith),
            le→leb 20 p.len (omega arith),
            le→leb 4 (32 + m) (omega arith),
            le→leb 8 (32 + m) (omega arith),
            le→leb 10 (32 + m) (omega arith),
            le→leb 12 (32 + m) (omega arith),
            le→leb (20 + (20 + m)) p.len (omega arith),
            le→leb (12 + (20 + m)) (32 + m) (omega arith),
          )
          e,
      omega (arith, k.fits16),
    )

abbrev pub ip_fields : ℕ → ℕ → ℕ → Buf
ip_fields src dst n =
    let h =
      patch (patch (patch (λ i. 0) 0 1 (byte_of 0x45)) 2 2 (byte_of (htons n))) 4 2
        (byte_of (htons ip_id)) in
    record {
      len = n;
      at =
          patch
            (patch (patch (patch h 8 1 (byte_of default_ttl)) 9 1 (byte_of 6)) 12 4 (byte_of src))
            16 4 (byte_of dst);
    }

ip_header_lem : (src dst n : ℕ) → 20 ≤ n → ip_header src dst n ≡ done (ip_fields src dst n)
unfolding ip_header ◌>>=◌
ip_header_lem src dst n h = rw (
  le→leb 1 n (omega arith),
  le→leb 4 n (omega arith),
  le→leb 6 n (omega arith),
  le→leb 9 n (omega arith),
  le→leb 10 n (omega arith),
  le→leb 16 n (omega arith),
  le→leb 20 n (omega arith),
)

ip_fields-HasBytes : (src dst n : ℕ) → HasBytes (ip_fields src dst n)
ip_fields-HasBytes src dst n = set-bytes _ 16 4 dst (
    set-bytes _ 12 4 src (
      set-bytes _ 9 1 6 (
        set-bytes _ 8 1 default_ttl (
          set-bytes _ 4 2 (htons ip_id)
            (set-bytes _ 2 2 (htons n) (set-bytes _ 0 1 0x45 (λ i. omega arith)))))))

abbrev pub datagram : ℕ → ℕ → ℕ → ℕ → Buf
datagram src dst n c = record (ip_fields src dst n) {
  at = patch (ip_fields src dst n).at 10 2 (byte_of c);
}

pub datagram-HasBytes : (src dst n c : ℕ) → HasBytes (datagram src dst n c)
datagram-HasBytes src dst n c = set-bytes _ 10 2 c (ip_fields-HasBytes src dst n)

pub create_datagram_lem :
    (src dst m : ℕ)
    → m ≤ 1440
    → (c : ℕ) × (create_datagram src dst (20 + m) ≡ done (datagram src dst (40 + m) c))
unfolding create_datagram ◌>>=◌
create_datagram_lem src dst m few =
    let (c, e, k) =
      cksum-IsChecksum (ip_fields src dst (40 + m)) 0 20 (ip_fields-HasBytes src dst (40 + m))
        (omega arith) (omega arith) in
    let n : (20 + (20 + m)) % 2 ^ 16 ≡ 40 + m = omega arith in
    (c, rw (n, ip_header_lem src dst (40 + m) (omega arith), e, le→leb 12 (40 + m) (omega arith)))

-- The copy of a segment with `m` bytes of data that `conn_send` makes.
abbrev pub segment_copy : (ℕ → ℕ) → ℕ → Buf
segment_copy o m = record { len = 20 + m; at = patch (λ i. 0) 0 (20 + m) o }

abbrev pub flags_to : Link → ℕ → ℕ
flags_to l flags = if l.web then bit_or flags th_ack else flags

-- The packet with its TCP header, on the packet `h` with its data.
abbrev pub tcp_open : Link → (ℕ → ℕ) → Buf → ℕ → ℕ
tcp_open l h b =
    let p = patch (patch h 20 2 (byte_of (htons l.port))) 22 2 (byte_of (htons l.peer_port)) in
    let q = patch p 24 4 (byte_of (htonl ((htonl (word_at b 0) + l.init_seqno) % 2 ^ 32))) in
    let r = patch q 28 4 (byte_of (htonl ((htonl (word_at b 4) + l.their_init_seqno) % 2 ^ 32))) in
    let t = patch (patch r 32 1 (byte_of 0x50)) 33 1 (byte_of (flags_to l (b.at 12))) in
    patch t 34 2 (byte_of (half_at b 16))

abbrev pub tcp_fields : Link → (ℕ → ℕ) → Buf → ℕ → Buf
tcp_fields l h b n = record { len = n; at = patch (tcp_open l h b) 36 2 (byte_of 0) }

tcp_header_lem :
    (l : Link) (h : ℕ → ℕ) (b : Buf) (n : ℕ)
    → 20 ≤ b.len
    → 40 ≤ n
    → tcp_header l (record { len = n; at = h }) b ≡ done (tcp_fields l h b n)
unfolding tcp_header ◌>>=◌
tcp_header_lem l h b n k j = rw (
  le→leb 22 n (omega arith),
  le→leb 24 n (omega arith),
  le→leb 4 b.len (omega arith),
  le→leb 28 n (omega arith),
  le→leb 8 b.len (omega arith),
  le→leb 32 n (omega arith),
  le→leb 33 n (omega arith),
  le→leb 13 b.len (omega arith),
  le→leb 34 n (omega arith),
  le→leb 18 b.len (omega arith),
  le→leb 36 n (omega arith),
  le→leb 38 n (omega arith),
)

tcp_fields-HasBytes :
    (l : Link) (h : ℕ → ℕ) (b : Buf) (n : ℕ) → ((i : ℕ) → h i < 256) → HasBytes (tcp_fields l h b n)
tcp_fields-HasBytes l h b n k = set-bytes _ 36 2 0 (
    set-bytes _ 34 2 (half_at b 16) (
      set-bytes _ 33 1 (flags_to l (b.at 12)) (
        set-bytes _ 32 1 0x50 (
          set-bytes _ 28 4 (htonl ((htonl (word_at b 4) + l.their_init_seqno) % 2 ^ 32)) (
            set-bytes _ 24 4 (htonl ((htonl (word_at b 0) + l.init_seqno) % 2 ^ 32))
              (set-bytes _ 22 2 (htons l.peer_port) (set-bytes _ 20 2 (htons l.port) k)))))))

abbrev pub cleared : Buf → Buf
cleared b = record b { at = patch b.at 18 2 (byte_of 0) }

-- The TCP header ends at 40.
pub tcp_fields-data :
    (l : Link) (h : ℕ → ℕ) (b : Buf) (n i : ℕ) → 40 ≤ i → (tcp_fields l h b n).at i ≡ h i
tcp_fields-data l h b n i k =
    header h (byte_of (htons l.port)) (byte_of (htons l.peer_port))
      (byte_of (htonl ((htonl (word_at b 0) + l.init_seqno) % 2 ^ 32)))
      (byte_of (htonl ((htonl (word_at b 4) + l.their_init_seqno) % 2 ^ 32))) (byte_of 0x50)
      (byte_of (flags_to l (b.at 12))) (byte_of (half_at b 16)) (byte_of 0) i k
  where
    header :
        (h p q r t u v w x : ℕ → ℕ) (i : ℕ)
        → 40 ≤ i
        → patch
            (patch
              (patch
                (patch (patch (patch (patch (patch h 20 2 p) 22 2 q) 24 4 r) 28 4 t) 32 1 u)
                33
                1
                v)
              34
              2
              w)
            36
            2
            x
            i
          ≡ h i
    header h p q r t u v w x i k = ground arith

-- The packet for the segment `b` with `m` bytes of data, before its TCP checksum; `c` is the checksum of
-- the IP header.
abbrev pub packet : Link → Buf → ℕ → ℕ → Buf
packet l b m c =
    tcp_fields l (patch (datagram l.ip_addr l.peer_addr (40 + m) c).at 40 m (λ i. b.at (20 + i))) b
      (40 + m)

pub packet-HasBytes : (l : Link) (b : Buf) (m c : ℕ) → HasBytes b → HasBytes (packet l b m c)
packet-HasBytes l b m c h = tcp_fields-HasBytes l _ b (40 + m) (
    patch-bytes _ 40 m _ (set-bytes _ 10 2 c (ip_fields-HasBytes l.ip_addr l.peer_addr (40 + m)))
      (λ i. h (20 + i)))

abbrev pub with_sum : Buf → ℕ → Buf
with_sum d s = record d { at = patch d.at 36 2 (byte_of s) }

abbrev pub sum_of : ℕ → ℕ → ℕ → ℕ
sum_of t c s = (t + (c + 2 ^ 16 - s)) % 2 ^ 16

-- The checksum is taken off again.
pub packet_back :
    (l : Link) (b : Buf) (m c s : ℕ) → with_sum (with_sum (packet l b m c) s) 0 ≡ packet l b m c
packet_back l b m c s =
    let h = patch (datagram l.ip_addr l.peer_addr (40 + m) c).at 40 m (λ i. b.at (20 + i)) in
    ap (λ (f : ℕ → ℕ). record { len = 40 + m; at = f })
      (patch_back (tcp_open l h b) 36 2 (byte_of 0) (byte_of s))

-- What the sender makes of a segment.
pub convert_to_datagram_lem :
    (l : Link) (b : Buf) (m c t : ℕ)
    → b.len ≡ 20 + m
    → m ≤ 1440
    → create_datagram l.ip_addr l.peer_addr (20 + m)
      ≡ done (datagram l.ip_addr l.peer_addr (40 + m) c)
    → (k : ℕ) → cksum (cleared b) 0 (20 + m) ≡ done k
    → cksum_tcp (packet l b m c) m ≡ done t
    → convert_to_datagram l b (20 + m)
      ≡ done (with_sum (packet l b m c) (sum_of t k (half_at b 18)))
unfolding convert_to_datagram ◌>>=◌
convert_to_datagram_lem l b m c t size few create k correct tcp =
    let e : (20 + m + (2 ^ 16 - 20)) % 2 ^ 16 ≡ m = omega arith in
    let f : (20 + m + (2 ^ 16 - 20) + 20) % 2 ^ 16 ≡ 20 + m = omega arith in
    let d = datagram l.ip_addr l.peer_addr (40 + m) c in
    rw (
      e,
      f,
      create,
      copy_data_lem d b 40 20 m (omega arith) (omega arith),
      tcp_header_lem l (patch d.at 40 m (λ i. b.at (20 + i))) b (40 + m) (omega arith)
          (omega arith),
      le→leb 20 b.len (omega arith),
      correct,
      tcp,
      le→leb 38 (40 + m) (omega arith),
    )
