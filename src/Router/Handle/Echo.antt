-- ===== src/Router/Handle/Echo.antt =====
-- The echo reply.
use cs.Base.{
  ℕ, suc, ◌+◌, ◌*◌, ◌%◌, ◌^◌, ◌≤◌, ◌<◌, ◌≡◌, refl, ◌↔◌, some, none, true, leb, arith, done, fault,
  ◌>>=◌, le→leb, sym,
}
use cs.Bytes.{Buf, HasBytes, mac_at, word_at, half_at, patch, byte_of, htons}
use cs.Checksum.Laws.{word_sum, IsSummed}
use cs.Checksum.Header.{word_sum_congr}
use cs.Router.State.{Iface, Instance}
use cs.Router.Interfaces.Laws.{mac_2_iface-addr}
use cs.Router.Interfaces.{mac_2_iface, sr_get_interface}
use cs.Router.Send.{with_frame}
use cs.Router.Send.Laws.{sr_send_packet-sent}
use cs.Router.Handle.{echo_reply_frame, echo_reply}

-- The frame in the order of the writes of the code.
abbrev replied : Buf → Buf
replied f =
    let ips =
      patch (patch (patch f.at 34 1 (byte_of 0)) 26 4 (byte_of (word_at f 30))) 30 4
        (byte_of (word_at f 26)) in
    let sum = patch ips 36 2 (byte_of (htons ((htons (half_at f 36) + 0x0800) % 2 ^ 16))) in
    record f { at = patch (patch sum 0 6 (λ i. f.at (6 + i))) 6 6 (λ i. f.at (0 + i)) }

echo_reply_frame-replied : (f : Buf) → 38 ≤ f.len → echo_reply_frame f ≡ done (replied f)
unfolding echo_reply_frame ◌>>=◌
echo_reply_frame-replied f long =
    let whole : leb (0 + f.len) f.len ≡ true = ground arith in
    simp (
      whole,
      le→leb 35 f.len (omega arith),
      le→leb 34 f.len (omega arith),
      le→leb 30 f.len (omega arith),
      le→leb 38 f.len (omega arith),
      le→leb 12 f.len (omega arith),
      le→leb 6 f.len (omega arith),
    )

-- The IP header keeps its sum, since the two addresses are only exchanged.
ip-replied : (f : Buf) → HasBytes f → word_sum (replied f) 14 20 ≡ word_sum f 14 20
unfolding word_sum
ip-replied f bytes =
    omega (arith, bytes 26, bytes 27, bytes 28, bytes 29, bytes 30, bytes 31, bytes 32, bytes 33)

-- The words of an ICMP message: type and code, checksum, the rest; of the request, then of the reply.
abbrev before : ℕ → ℕ → ℕ → ℕ
before code s rest = 8 * 256 + code + (s + rest)

abbrev after : ℕ → ℕ → ℕ → ℕ
after code s rest = code + ((s + 0x0800) % 2 ^ 16 + rest)

icmp_step :
    (code s rest : ℕ)
    → s < 2 ^ 16
    → before code s rest % 0xffff ≡ 0
    → (after code s rest % 0xffff ≡ 0) ↔ (s < 0xf800)
icmp_step code s rest low h = ground arith

-- The ICMP message, from its 4 bytes of header on.
icmp_before :
    (f : Buf) (n : ℕ)
    → f.at 34 ≡ 8
    → word_sum f 34 (suc (suc (suc (suc n))))
      ≡ before (f.at 35) (f.at 36 * 256 + f.at 37) (word_sum f 38 n)
unfolding word_sum
icmp_before f n h = omega arith

icmp_after :
    (f : Buf) (n : ℕ)
    → HasBytes f
    → word_sum (replied f) 34 (suc (suc (suc (suc n))))
      ≡ after (f.at 35) (f.at 36 * 256 + f.at 37) (word_sum f 38 n)
unfolding word_sum
icmp_after f n bytes =
    omega (arith, bytes 36, bytes 37, word_sum_congr (replied f) f 38 n (λ i far. ground arith))

-- The reply `g` to the echo request `f`.
pub record IsEchoReply (f g : Buf) : Type 0 where
  pub length : g.len ≡ f.len
  pub to_sender : mac_at g 0 ≡ mac_at f 6
  pub from_me : mac_at g 6 ≡ mac_at f 0
  pub icmp_type : g.at 34 ≡ 0
  pub source : word_at g 26 ≡ word_at f 30
  pub destination : word_at g 30 ≡ word_at f 26
  pub same_header : word_sum g 14 20 ≡ word_sum f 14 20
  pub payload : (i : ℕ) → 38 ≤ i → g.at i ≡ f.at i
  pub checked :
      (n : ℕ)
      → IsSummed f 34 (suc (suc (suc (suc n))))
      → IsSummed g 34 (suc (suc (suc (suc n)))) ↔ (htons (half_at f 36) < 0xf800)

word-round :
    (f : Buf) (off : ℕ)
    → HasBytes f
    → byte_of (word_at f off) 0
        + byte_of (word_at f off) 1 * 256
        + byte_of (word_at f off) 2 * 2 ^ 16
        + byte_of (word_at f off) 3 * 2 ^ 24
      ≡ word_at f off
word-round f off bytes = omega (arith, bytes off, bytes (off + 1), bytes (off + 2), bytes (off + 3))

replied-checked :
    (f : Buf) (n : ℕ)
    → HasBytes f
    → f.at 34 ≡ 8
    → IsSummed f 34 (suc (suc (suc (suc n))))
    → IsSummed (replied f) 34 (suc (suc (suc (suc n)))) ↔ (htons (half_at f 36) < 0xf800)
replied-checked f n bytes request sum =
    let s = f.at 36 * 256 + f.at 37 in
    let read : htons (half_at f 36) ≡ s = omega (arith, bytes 36, bytes 37) in
    rw (icmp_after f n bytes, read)
      (icmp_step (f.at 35) s (word_sum f 38 n) (omega (arith, bytes 36, bytes 37))
        (rw (icmp_before f n request) at sum))

replied-IsEchoReply : (f : Buf) → HasBytes f → f.at 34 ≡ 8 → IsEchoReply f (replied f)
replied-IsEchoReply f bytes request = record {
  length = refl;
  to_sender = refl;
  from_me = refl;
  icmp_type = refl;
  source = word-round f 30 bytes;
  destination = word-round f 26 bytes;
  same_header = ip-replied f bytes;
  payload = λ i far. ground arith;
  checked = λ n sum. replied-checked f n bytes request sum;
}

module _ (sr : Instance) (f : Buf) (long : 38 ≤ f.len) where
  -- An echo request of at least 38 bytes that came to the hardware address of an interface, which
  -- is found by its own name, is answered by that interface: the addresses are exchanged, the type
  -- is 0, the IP header's sum and the payload stay. A right ICMP checksum stays right exactly when,
  -- read in network order, it was below 0xf800.
  pub echo_reply-IsEchoReply :
      (via : Iface)
      → HasBytes f
      → f.at 34 ≡ 8
      → mac_2_iface sr (mac_at f 0) ≡ some via
      → sr_get_interface sr via.name ≡ some via
      → (g : Buf) × (echo_reply sr f ≡ done (with_frame sr g f.len via.name)) × IsEchoReply f g
  unfolding echo_reply ◌>>=◌
  echo_reply-IsEchoReply via bytes request to named = (
    replied f,
    rw (echo_reply_frame-replied f long, le→leb 6 f.len (omega arith), to)
        (sr_send_packet-sent sr (replied f) f.len via.name (omega arith) (omega arith) named
          (sym (mac_2_iface-addr sr (mac_at f 0) to))),
    replied-IsEchoReply f bytes request,
  )

  -- A request of at least 38 bytes that came to no interface's hardware address, such as a
  -- broadcast, is not answered: the null pointer for the interface is followed.
  pub echo_reply_unaddressed : mac_2_iface sr (mac_at f 0) ≡ none → echo_reply sr f ≡ fault
  unfolding echo_reply ◌>>=◌
  echo_reply_unaddressed none_found =
      rw (echo_reply_frame-replied f long, le→leb 6 f.len (omega arith), none_found)
