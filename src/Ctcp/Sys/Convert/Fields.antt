-- ===== src/Ctcp/Sys/Convert/Fields.antt =====
-- The fields of a cTCP segment that `convert_to_datagram` of ctcp_sys_internal.c has translated and
-- `convert_to_ctcp` takes from the packet.
use cs.Base.{
  ℕ, ◌+◌, ◌-◌, ◌*◌, ◌%◌, ◌^◌, ◌≤◌, ◌<◌, ◌≡◌, refl, ap, ◌∙◌, sym, ltb, arith, Bool-cases, inl, inr,
}
use cs.Bytes.{Buf, HasBytes, patch, byte_of, word_at, htons, htonl}
use cs.Checksum.Header.{patch-bytes}
use cs.Ctcp.Ack.{net_round}
use cs.Ctcp.Sys.Convert.{Link}
use cs.Ctcp.Sys.Convert.Agree.{Same, same_bytes, relative, turned, patch_in, patch_out}
use cs.Ctcp.Sys.Convert.Steps.{
  segment_copy, flags_to, datagram, packet, cleared, with_sum, tcp_fields-data,
}
use cs.Ctcp.Sys.Convert.Taken.{fields_of, fields_of-data, fields_of-beyond}

-- The two ends of a connection know each other's initial sequence numbers.
pub record IsMirror (l r : Link) : Type 0 where
  pub mine : r.their_init_seqno ≡ l.init_seqno
  pub theirs : r.init_seqno ≡ l.their_init_seqno
  pub mine_low : l.init_seqno < 2 ^ 32
  pub theirs_low : l.their_init_seqno < 2 ^ 32

-- The memory `o` holds a segment with `m` bytes of data: its length field is right, the two bytes of padding
-- are 0, and the flags are those of TCP, with ACK if the peer is on the web.
pub record IsSegment (l : Link) (o : ℕ → ℕ) (m : ℕ) : Type 0 where
  pub bytes : (i : ℕ) → o i < 256
  pub few : m ≤ 1440
  pub len_field : htons (o 8 + o 9 * 256) ≡ 20 + m
  pub pad10 : o 10 ≡ 0
  pub pad11 : o 11 ≡ 0
  pub flags13 : o 13 ≡ 0
  pub flags14 : o 14 ≡ 0
  pub flags15 : o 15 ≡ 0
  pub acks : flags_to l (o 12) ≡ o 12

module _ (l r : Link) (o : ℕ → ℕ) (m : ℕ) (mirror : IsMirror l r) (v : IsSegment l o m)
    (c s : ℕ) where
  abbrev b : Buf
  b = segment_copy o m

  abbrev d : Buf
  d = with_sum (packet l b m c) s

  pub b-HasBytes : HasBytes b
  b-HasBytes = patch-bytes (λ i. 0) 0 (20 + m) o (λ i. omega arith) v.bytes

  pub head_at : (i : ℕ) → i < 20 → b.at i ≡ o i
  head_at i h =
      let e : 0 + i ≡ i = omega arith in rw e at (patch_in (λ i. 0) 0 (20 + m) o i (omega arith))

  pub htonl-lt : (w : ℕ) → htonl w < 2 ^ 32
  htonl-lt w = omega arith

  seqno_back : (htonl (word_at d 24) + 2 ^ 32 - r.their_init_seqno) % 2 ^ 32 ≡ htonl (word_at b 0)
  seqno_back =
      let w = htonl (word_at b 0) in
      ap (λ (q : ℕ). (q + 2 ^ 32 - r.their_init_seqno) % 2 ^ 32)
        (net_round ((w + l.init_seqno) % 2 ^ 32) (omega arith))
      ∙ ap (λ (q : ℕ). ((w + l.init_seqno) % 2 ^ 32 + 2 ^ 32 - q) % 2 ^ 32) mirror.mine
      ∙ relative w l.init_seqno (htonl-lt (word_at b 0)) mirror.mine_low

  ackno_back : (htonl (word_at d 28) + 2 ^ 32 - r.init_seqno) % 2 ^ 32 ≡ htonl (word_at b 4)
  ackno_back =
      let w = htonl (word_at b 4) in
      ap (λ (q : ℕ). (q + 2 ^ 32 - r.init_seqno) % 2 ^ 32)
        (net_round ((w + l.their_init_seqno) % 2 ^ 32) (omega arith))
      ∙ ap (λ (q : ℕ). ((w + l.their_init_seqno) % 2 ^ 32 + 2 ^ 32 - q) % 2 ^ 32) mirror.theirs
      ∙ relative w l.their_init_seqno (htonl-lt (word_at b 4)) mirror.theirs_low

  abbrev g : ℕ → ℕ
  g = (fields_of r d m).at

  same0 : Same g (cleared b).at 0
  same0 =
      let t = turned b.at 0 b-HasBytes in
      let at : (k : ℕ)
          → byte_of (htonl ((htonl (word_at d 24) + 2 ^ 32 - r.their_init_seqno) % 2 ^ 32)) k
            ≡ byte_of (htonl (htonl (word_at b 0))) k =
        λ k. ap (λ (q : ℕ). byte_of (htonl q) k) seqno_back in
      record { s0 = at 0 ∙ t.0; s1 = at 1 ∙ t.1; s2 = at 2 ∙ t.2; s3 = at 3 ∙ t.3 }

  same4 : Same g (cleared b).at 4
  same4 =
      let t = turned b.at 4 b-HasBytes in
      let at : (k : ℕ)
          → byte_of (htonl ((htonl (word_at d 28) + 2 ^ 32 - r.init_seqno) % 2 ^ 32)) k
            ≡ byte_of (htonl (htonl (word_at b 4))) k =
        λ k. ap (λ (q : ℕ). byte_of (htonl q) k) ackno_back in
      record { s0 = at 0 ∙ t.0; s1 = at 1 ∙ t.1; s2 = at 2 ∙ t.2; s3 = at 3 ∙ t.3 }

  len_bytes : (byte_of (htons (20 + m)) 0 ≡ o 8) × (byte_of (htons (20 + m)) 1 ≡ o 9)
  len_bytes =
      let x = v.bytes 8 in let y = v.bytes 9 in let e = v.len_field in (omega arith, omega arith)

  same8 : Same g (cleared b).at 8
  same8 = record {
    s0 = len_bytes.0 ∙ sym (head_at 8 (omega arith));
    s1 = len_bytes.1 ∙ sym (head_at 9 (omega arith));
    s2 = sym v.pad10 ∙ sym (head_at 10 (omega arith));
    s3 = sym v.pad11 ∙ sym (head_at 11 (omega arith));
  }

  pub flags_byte : d.at 33 ≡ o 12
  flags_byte =
      let e : flags_to l (b.at 12) ≡ o 12 = rw (head_at 12 (omega arith)) v.acks in
      let x = v.bytes 12 in
      let y : byte_of (o 12) 0 ≡ o 12 = omega arith in ap (λ (q : ℕ). byte_of q 0) e ∙ y

  small_bytes :
      (x : ℕ)
      → x < 256
      → (byte_of x 0 ≡ x) × (byte_of x 1 ≡ 0) × (byte_of x 2 ≡ 0) × (byte_of x 3 ≡ 0)
  small_bytes x h = (omega arith, omega arith, omega arith, omega arith)

  same12 : Same g (cleared b).at 12
  same12 =
      let t = small_bytes (o 12) (v.bytes 12) in
      let at : (k : ℕ) → byte_of (d.at 33) k ≡ byte_of (o 12) k =
        λ k. ap (λ (q : ℕ). byte_of q k) flags_byte in
      record {
        s0 = at 0 ∙ t.0 ∙ sym (head_at 12 (omega arith));
        s1 = at 1 ∙ t.1 ∙ sym v.flags13 ∙ sym (head_at 13 (omega arith));
        s2 = at 2 ∙ t.2 ∙ sym v.flags14 ∙ sym (head_at 14 (omega arith));
        s3 = at 3 ∙ t.3 ∙ sym v.flags15 ∙ sym (head_at 15 (omega arith));
      }

  pair_bytes :
      (x y : ℕ)
      → x < 256
      → y < 256
      → let w = x + y * 256 in
        let w' = byte_of w 0 + byte_of w 1 * 256 in (byte_of w' 0 ≡ x) × (byte_of w' 1 ≡ y)
  pair_bytes x y h k = (omega arith, omega arith)

  same16 : Same g (cleared b).at 16
  same16 =
      let t = pair_bytes (b.at 16) (b.at 17) (b-HasBytes 16) (b-HasBytes 17) in
      record { s0 = t.0; s1 = t.1; s2 = refl; s3 = refl }

  d-data : (j : ℕ) → j < m → d.at (40 + j) ≡ b.at (20 + j)
  d-data j h =
      let p = patch (datagram l.ip_addr l.peer_addr (40 + m) c).at 40 m (λ i. b.at (20 + i)) in
      patch_out (packet l b m c).at 36 2 (byte_of s) (40 + j) (omega arith)
      ∙ tcp_fields-data l p b (40 + m) (40 + j) (omega arith)
      ∙ patch_in (datagram l.ip_addr l.peer_addr (40 + m) c).at 40 m (λ i. b.at (20 + i)) j h

  same_rest : (j : ℕ) → g (20 + j) ≡ (cleared b).at (20 + j)
  same_rest j =
      let plain : (cleared b).at (20 + j) ≡ b.at (20 + j) =
        patch_out b.at 18 2 (byte_of 0) (20 + j) (omega arith) in
      elim (Bool-cases (ltb j m)) [
        | inl inside ↦ fields_of-data r d m j (ground arith) ∙ d-data j (ground arith) ∙ sym plain
        | inr out ↦
            fields_of-beyond r d m j (ground arith)
            ∙ sym (patch_out (λ i. 0) 0 (20 + m) o (20 + j) (ground arith))
            ∙ sym plain
      ]

  pub fields_of-cleared : g ≡ (cleared b).at
  fields_of-cleared = same_bytes g (cleared b).at same0 same4 same8 same12 same16 same_rest
