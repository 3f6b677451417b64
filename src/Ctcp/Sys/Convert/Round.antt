-- ===== src/Ctcp/Sys/Convert/Round.antt =====
-- A cTCP segment that `convert_to_datagram` of ctcp_sys_internal.c has translated, translated back by
-- `convert_to_ctcp`.
use cs.Base.{ℕ, ◌+◌, ◌-◌, ◌*◌, ◌%◌, ◌^◌, ◌<◌, ◌≡◌, refl, ap, ◌∙◌, arith, done}
use cs.Bytes.{Buf, patch, byte_of, half_at}
use cs.Checksum.{cksum}
use cs.Checksum.Laws.{cksum-IsChecksum}
use cs.Ctcp.Ack.{net_round16}
use cs.Ctcp.Sys.Convert.{Link, cksum_tcp, convert_to_datagram, convert_to_ctcp}
use cs.Ctcp.Sys.Convert.Agree.{difference, half_bytes, patch_sum}
use cs.Ctcp.Sys.Convert.Steps.{
  segment_copy, packet, packet-HasBytes, cleared, with_sum, packet_back, sum_of, set-bytes,
  cksum_tcp-done, create_datagram_lem, convert_to_datagram_lem,
}
use cs.Ctcp.Sys.Convert.Taken.{fields_of, convert_to_ctcp_lem}
use cs.Ctcp.Sys.Convert.Fields.{IsMirror, IsSegment, b-HasBytes, fields_of-cleared}

bytes_half :
    (x y : ℕ)
    → x < 256
    → y < 256
    → (x + y * 256 < 2 ^ 16) × (byte_of (x + y * 256) 0 ≡ x) × (byte_of (x + y * 256) 1 ≡ y)
bytes_half x y h k = (omega arith, omega arith, omega arith)

-- The receiver of the packet with checksum `s`.
pub translated_back :
    (l r : Link) (o : ℕ → ℕ) (m : ℕ)
    → IsMirror l r
    → IsSegment l o m
    → (c k t : ℕ) → k < 2 ^ 16
    → t < 2 ^ 16
    → cksum (cleared (segment_copy o m)) 0 (20 + m) ≡ done k
    → cksum_tcp (packet l (segment_copy o m) m c) m ≡ done t
    → convert_to_ctcp r
        (with_sum (packet l (segment_copy o m) m c) (sum_of t k (half_at (segment_copy o m) 18)))
      ≡ done (segment_copy o m)
translated_back l r o m mirror v c k t fk ft correct tcp =
    let b = segment_copy o m in
    let s = half_at b 18 in
    let q = sum_of t k s in
    let d = with_sum (packet l b m c) q in
    let bytes = b-HasBytes l r o m mirror v c q in
    let (low, first, second) = bytes_half (b.at 18) (b.at 19) (bytes 18) (bytes 19) in
    let same = fields_of-cleared l r o m mirror v c q in
    let x = half_bytes q (omega arith) in
    let few = v.few in
    let back : (k + (t + 2 ^ 16 - half_at d 36)) % 2 ^ 16 ≡ s =
      ap (λ (z : ℕ). (k + (t + 2 ^ 16 - z)) % 2 ^ 16) x ∙ difference t k s ft fk low in
    let again : cksum_tcp (with_sum d 0) m ≡ done t =
      ap (λ (z : Buf). cksum_tcp z m) (packet_back l b m c q) ∙ tcp in
    let sums : cksum (fields_of r d m) 0 (20 + m) ≡ done k =
      ap (λ (f : ℕ → ℕ). cksum (record { len = 20 + m; at = f }) 0 (20 + m)) same ∙ correct in
    let whole : patch (fields_of r d m).at 18 2
          (byte_of ((k + (t + 2 ^ 16 - half_at d 36)) % 2 ^ 16))
        ≡ b.at =
      ap (λ (z : ℕ). patch (fields_of r d m).at 18 2 (byte_of z)) back
      ∙ ap (λ (f : ℕ → ℕ). patch f 18 2 (byte_of s)) same
      ∙ patch_sum b.at (byte_of s) (byte_of 0) first second in
    convert_to_ctcp_lem r d m k t refl few (net_round16 (40 + m) (omega arith)) sums again
    ∙ ap (λ (f : ℕ → ℕ). done (record { len = 20 + m; at = f })) whole

-- What a packet is made of.
pub convert_to_datagram-done :
    (l r : Link) (o : ℕ → ℕ) (m : ℕ)
    → IsMirror l r
    → IsSegment l o m
    → (c : ℕ) × (k : ℕ) × (t : ℕ) × (convert_to_datagram l (segment_copy o m) (20 + m)
        ≡ done (
            with_sum
              (packet l (segment_copy o m) m c)
              (sum_of t k (half_at (segment_copy o m) 18))))
      × (cksum (cleared (segment_copy o m)) 0 (20 + m) ≡ done k)
      × (cksum_tcp (packet l (segment_copy o m) m c) m ≡ done t)
      × (k < 2 ^ 16)
      × (t < 2 ^ 16)
convert_to_datagram-done l r o m mirror v =
    let b = segment_copy o m in
    let few = v.few in
    let (c, create) = create_datagram_lem l.ip_addr l.peer_addr m few in
    let bytes = b-HasBytes l r o m mirror v c 0 in
    let (k, correct, fits) =
      cksum-IsChecksum (cleared b) 0 (20 + m) (set-bytes b.at 18 2 0 bytes) (omega arith)
        (omega arith) in
    let (t, tcp, ft) = cksum_tcp-done (packet l b m c) m (packet-HasBytes l b m c bytes) refl few in
    (
      c,
      k,
      t,
      convert_to_datagram_lem l b m c t refl few create k correct tcp,
      correct,
      tcp,
      omega (arith, fits.fits16),
      ft,
    )

-- A cTCP segment of at most 1,460 bytes that one end of a connection translates into an IP packet with a TCP
-- header, from a copy of its memory, comes out of the other end's translation byte for byte as it went in,
-- its checksum too: both translations return. The two ends must know each other's initial sequence numbers,
-- the segment's length field must be its length, its padding 0 and its flags those that TCP keeps (with ACK
-- if the peer is on the web).
pub convert_to_ctcp-convert_to_datagram :
    (l r : Link) (o : ℕ → ℕ) (m : ℕ)
    → IsMirror l r
    → IsSegment l o m
    → (d : Buf) × (convert_to_datagram l (segment_copy o m) (20 + m) ≡ done d)
      × (convert_to_ctcp r d ≡ done (segment_copy o m))
convert_to_ctcp-convert_to_datagram l r o m mirror v =
    let (c, k, t, e, correct, tcp, fk, ft) = convert_to_datagram-done l r o m mirror v in
    (
      with_sum (packet l (segment_copy o m) m c) (sum_of t k (half_at (segment_copy o m) 18)),
      e,
      translated_back l r o m mirror v c k t fk ft correct tcp,
    )
