-- ===== src/Router/Forward/Expired.antt =====
-- The time-exceeded message.
use cs.Base.{
  ℕ, ◌+◌, ◌-◌, ◌^◌, ◌≤◌, ◌<◌, ◌≡◌, refl, List, some, leb, ltb, arith, done, ◌>>=◌, le→leb, true,
  false,
}
use cs.Bytes.{Buf, HasBytes, mac_at, word_at, patch, byte_of, htons}
use cs.Router.State.{Iface, Instance}
use cs.Router.Interfaces.{sr_get_interface}
use cs.Router.Send.{with_frame}
use cs.Router.Send.Laws.{sr_send_packet-sent}
use cs.Checksum.{cksum}
use cs.Checksum.Laws.{cksum-IsChecksum, IsSummed, word_sum}
use cs.Checksum.Header.{
  patch-bytes, byte_of-bytes, word_round, word_at-lt, with_ip_sum, with_ip_sum-HasBytes,
  IsSummed-with_ip_sum, with_icmp_sum, IsSummed-with_icmp_sum,
}
use cs.Router.Forward.{time_exceeded_head, time_exceeded_body, time_exceeded, forward_ip_packet}

-- The frame before its checksums.
abbrev drafted : Buf → Iface → Buf
drafted f via =
    let a = patch (patch (λ i. 0) 6 6 (λ i. f.at (0 + i))) 0 6 (λ i. f.at (6 + i)) in
    let b = patch (patch a 12 2 (byte_of (htons 0x0800))) 14 20 (λ i. f.at (14 + i)) in
    let c = patch (patch b 30 4 (byte_of (word_at f 26))) 26 4 (byte_of via.ip) in
    let d = patch (patch c 22 1 (byte_of 64)) 23 1 (byte_of 1) in
    record { len = 110; at = patch d 24 2 (byte_of 0) }

abbrev quoted : Buf → Buf → Buf
quoted f g =
    let a = patch (patch g.at 34 1 (byte_of 11)) 35 1 (byte_of 0) in
    record { len = 110; at = patch (patch a 42 64 (λ i. f.at (14 + i))) 36 2 (byte_of 0) }

module _ (f : Buf) (via : Iface) (bytes : HasBytes f) where
  drafted-HasBytes : HasBytes (drafted f via)
  drafted-HasBytes =
      let store = λ (old : ℕ → ℕ) (off n v : ℕ) (h : (i : ℕ) → old i < 256).
        patch-bytes old off n (byte_of v) h (byte_of-bytes v) in
      store _ 24 2 0 (
        store _ 23 1 1 (
          store _ 22 1 64 (
            store _ 26 4 via.ip (
              store _ 30 4 (word_at f 26) (
                patch-bytes _ 14 20 _
                  (store _ 12 2 8 (
                    patch-bytes _ 0 6 _
                      (patch-bytes _ 6 6 _ (λ i. omega arith) (λ i. bytes (0 + i)))
                      (λ i. bytes (6 + i))))
                  (λ i. bytes (14 + i)))))))

  quoted-HasBytes : (g : Buf) → HasBytes g → HasBytes (quoted f g)
  quoted-HasBytes g h =
      let store = λ (old : ℕ → ℕ) (off n v : ℕ) (h : (i : ℕ) → old i < 256).
        patch-bytes old off n (byte_of v) h (byte_of-bytes v) in
      store _ 36 2 0
        (patch-bytes _ 42 64 _ (store _ 35 1 0 (store _ 34 1 11 h)) (λ i. bytes (14 + i)))

-- The message `g` about the packet `f`.
pub record IsTimeExceeded (f : Buf) (via : Iface) (g : Buf) : Type 0 where
  pub length : g.len ≡ 110
  pub to_sender : mac_at g 0 ≡ mac_at f 6
  pub from_me : mac_at g 6 ≡ mac_at f 0
  pub time_to_live : g.at 22 ≡ 64
  pub protocol : g.at 23 ≡ 1
  pub source : word_at g 26 ≡ via.ip
  pub destination : word_at g 30 ≡ word_at f 26
  pub summed : IsSummed g 14 20
  pub icmp_type : g.at 34 ≡ 11
  pub icmp_code : g.at 35 ≡ 0
  pub quote : (i : ℕ) → i < 64 → g.at (42 + i) ≡ f.at (14 + i)
  pub icmp_summed : IsSummed g 34 72

quote_lem :
    (f g : Buf) (d i : ℕ) → i < 64 → (with_icmp_sum (quoted f g) d).at (42 + i) ≡ f.at (14 + i)
quote_lem f g d i h =
    let a : ltb (42 + i) (36 + 2) ≡ false = ground arith in
    let b : ltb (42 + i) (42 + 64) ≡ true = ground arith in
    let c : leb 42 (42 + i) ≡ true = ground arith in
    let e : leb 36 (42 + i) ≡ true = ground arith in
    let k : 42 + i - 42 ≡ i = omega arith in simp (a, b, c, e, k)

named_again :
    (sr : Instance) (g : Buf) (via : Iface)
    → sr_get_interface sr via.name ≡ some via
    → sr_get_interface (with_frame sr g 110 via.name) via.name ≡ some via
unfolding sr_get_interface
named_again sr g via h = h

module _ (sr : Instance) (f : Buf) (interface : List ℕ) (via : Iface) (bytes : HasBytes f)
    (long : 78 ≤ f.len) where
  body_lem :
      (c d : ℕ)
      → cksum (drafted f via) 14 20 ≡ done c
      → cksum (quoted f (with_ip_sum (drafted f via) c)) 34 72 ≡ done d
      → sr_get_interface sr interface ≡ some via
      → sr_get_interface sr via.name ≡ some via
      → mac_at f 0 ≡ via.addr
      → let g = with_icmp_sum (quoted f (with_ip_sum (drafted f via) c)) d in
        time_exceeded sr f interface
        ≡ done (with_frame (with_frame sr g 110 via.name) g 110 via.name)
  unfolding time_exceeded time_exceeded_head time_exceeded_body ◌>>=◌
  body_lem c d e e' into named mine =
      let g = with_icmp_sum (quoted f (with_ip_sum (drafted f via) c)) d in
      rw (
        le→leb 6 f.len (omega arith),
        le→leb 12 f.len (omega arith),
        le→leb 34 f.len (omega arith),
        le→leb 30 f.len (omega arith),
        into,
        e,
        le→leb 78 f.len long,
        e',
        sr_send_packet-sent sr g 110 via.name (omega arith) (omega arith) named mine,
        sr_send_packet-sent (with_frame sr g 110 via.name) g 110 via.name (omega arith)
            (omega arith) (named_again sr g via named) mine,
      )

  -- A packet of at least 78 bytes that comes in with its last hop, addressed to the interface that
  -- it came in by, which is found by its own name, is not forwarded: its sender gets a
  -- time-exceeded message, with both checksums right and the first 64 bytes of the packet, and gets
  -- it twice. The state is otherwise unchanged.
  pub forward-IsTimeExceeded :
      f.at 22 ≤ 1
      → via.ip < 2 ^ 32
      → sr_get_interface sr interface ≡ some via
      → sr_get_interface sr via.name ≡ some via
      → mac_at f 0 ≡ via.addr
      → (g : Buf) × (forward_ip_packet sr f interface
          ≡ done (with_frame (with_frame sr g 110 via.name) g 110 via.name))
        × IsTimeExceeded f via g
  unfolding forward_ip_packet word_sum ◌>>=◌
  forward-IsTimeExceeded last ip_word into named mine =
      let b = drafted f via in
      let b-bytes = drafted-HasBytes f via bytes in
      let (c, e, k) = cksum-IsChecksum b 14 20 b-bytes (omega arith) (omega arith) in
      let q = quoted f (with_ip_sum b c) in
      let q-bytes =
        quoted-HasBytes f via bytes (with_ip_sum b c) (with_ip_sum-HasBytes b c b-bytes) in
      let (d, e', k') = cksum-IsChecksum q 34 72 q-bytes (omega arith) (omega arith) in
      let whole : leb (0 + f.len) f.len ≡ true = ground arith in
      (
        with_icmp_sum q d,
        rw (whole, le→leb 23 f.len (omega arith), le→leb (f.at 22) 1 last)
            (body_lem c d e e' into named mine),
        record {
          length = refl;
          to_sender = refl;
          from_me = refl;
          time_to_live = refl;
          protocol = refl;
          source = word_round via.ip ip_word;
          destination = word_round (word_at f 26) (word_at-lt f 26 bytes);
          summed = IsSummed-with_ip_sum b c refl refl k;
          icmp_type = refl;
          icmp_code = refl;
          quote = λ i h. quote_lem f (with_ip_sum b c) d i h;
          icmp_summed = IsSummed-with_icmp_sum q d 68 refl refl k';
        },
      )
