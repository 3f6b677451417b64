-- ===== src/Ctcp/Sys/Loop/Through.antt =====
-- A segment's way from one end's `conn_send` to the other end's `ctcp_receive`, in ctcp_sys_internal.c.
use cs.Base.{
  ℕ, ◌+◌, ◌-◌, ◌^◌, ◌<◌, ◌≡◌, ◌≢◌, refl, ap, ◌∙◌, sym, Bool, true, false, ◌==◌, le→leb, arith,
  if◌then◌else◌, [], ◌∷◌, some, done, ◌>>=◌, bit_and,
}
use cs.Bytes.{Buf, half_at, htons}
use cs.Ctcp.Sys.Convert.{Link, convert_to_datagram, convert_to_ctcp}
use cs.Ctcp.Sys.Convert.Agree.{half_bytes}
use cs.Ctcp.Sys.Convert.Steps.{segment_copy, packet, with_sum, sum_of}
use cs.Ctcp.Sys.Convert.Fields.{IsMirror, IsSegment}
use cs.Ctcp.Sys.Convert.Round.{convert_to_datagram-done, translated_back}
use cs.Ctcp.Sys.Filter.{th_syn, th_rst, full_hdr_size, received, dropped, recv_filter}
use cs.Ctcp.Sys.Filter.Passes.{IsPeer, unwrapped, filtered}
use cs.Ctcp.Sys.Loop.{to_receive, pass_segment, receive_packet}

differ : (x y : ℕ) → x ≢ y → (x == y) ≡ false
differ x y h = ground arith

htons-lt : (x : ℕ) → htons x < 2 ^ 16
htons-lt x = omega arith

pass_segment_lem :
    (r : Link) (new_connection : ℕ) (d b : Buf) (m : ℕ)
    → convert_to_ctcp r d ≡ done b
    → b.len ≡ 20 + m
    → d.len ≡ 40 + m
    → half_at d 20 ≢ new_connection
    → pass_segment r new_connection d (40 + m) ≡ done (to_receive r b (20 + m), new_connection)
unfolding pass_segment ◌>>=◌
pass_segment_lem r new_connection d b m e size whole other =
    let back : 40 + m - full_hdr_size + 20 ≡ 20 + m = omega arith in
    rw (
      e,
      le→leb 22 d.len (omega arith),
      le→leb 16 b.len (omega arith),
      le→leb 4 b.len (omega arith),
      le→leb 8 b.len (omega arith),
      differ (half_at d 20) new_connection other,
      back,
    )

-- What one end sends comes to `ctcp_receive` on the other, on a host with that connection and no new one from the
-- same port: byte for byte the segment that went in, with its length. The segment has at most 1,460 bytes and neither SYN
-- nor RST, its numbers must not wrap around where the packet counts from the initial ones, and its length, padding
-- and flags must be right; the two ends must know each other's addresses, ports and initial numbers.
pub receive_packet-convert_to_datagram :
    (l r : Link) (o : ℕ → ℕ) (m : ℕ) (unix_socket : Bool) (new_connection : ℕ)
    → IsPeer l r
    → IsMirror l r
    → IsSegment l o m
    → bit_and (o 12) th_rst ≡ 0
    → bit_and (o 12) th_syn ≡ 0
    → unwrapped l (segment_copy o m) ≡ true
    → htons l.port ≢ new_connection
    → (d : Buf) × (convert_to_datagram l (segment_copy o m) (20 + m) ≡ done d)
      × (receive_packet unix_socket r.port (r ∷ []) new_connection (some d)
          ≡ done (to_receive r (segment_copy o m) (20 + m), new_connection))
unfolding receive_packet ◌>>=◌
receive_packet-convert_to_datagram l r o m unix_socket new_connection peer mirror v rst syn fit
      other =
    let (c, k, t, e, correct, tcp, fk, ft) = convert_to_datagram-done l r o m mirror v in
    let s = sum_of t k (half_at (segment_copy o m) 18) in
    let d = with_sum (packet l (segment_copy o m) m c) s in
    let passes : recv_filter unix_socket r.port (r ∷ []) (some d)
        ≡ done (received (40 + m) (some r)) =
      filtered l r o m peer mirror v c s unix_socket rst syn
      ∙ ap (λ (q : Bool). done (if q then received (40 + m) (some r) else dropped)) fit in
    let port : half_at d 20 ≡ htons l.port = half_bytes (htons l.port) (htons-lt l.port) in
    (
      d,
      e,
      rw passes (
          pass_segment_lem r new_connection d (segment_copy o m) m
            (translated_back l r o m mirror v c k t fk ft correct tcp) refl refl
            (λ z. other (sym port ∙ z))),
    )
