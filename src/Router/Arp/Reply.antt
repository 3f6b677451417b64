-- ===== src/Router/Arp/Reply.antt =====
-- Answering an ARP request, from the dispatch of `sr_handlepacket` to the frame on the wire.
use cs.Base.{ℕ, ◌+◌, ◌*◌, ◌^◌, ◌<◌, ◌≡◌, refl, some, true, false, leb, arith, done, fault, ◌>>=◌}
use cs.Bytes.{Buf, HasBytes, mac_at, half_at, word_at, patch, byte_of, mac_byte, htons}
use cs.Router.State.{Iface, Instance, Env}
use cs.Router.Interfaces.{sr_get_interface, ip_2_iface}
use cs.Router.Send.{with_frame}
use cs.Router.Send.Laws.{sr_send_packet-sent}
use cs.Router.Arp.{answer_request}

-- A frame of 42 bytes, the length of an ARP request with no padding.
abbrev pub frame42 : (ℕ → ℕ) → Buf
frame42 at = record { len = 42; at = at }

-- The frame in the order of the writes of the code.
abbrev reply : (ℕ → ℕ) → (ℕ → ℕ) → Iface → ℕ → ℕ
reply junk at ifce =
    let f = frame42 at in
    let sender = mac_byte (mac_at f 6) in
    let copy = patch junk 0 42 (λ i. at (0 + i)) in
    let eth = patch (patch copy 0 6 sender) 6 6 (mac_byte ifce.addr) in
    let op = patch eth 20 2 (byte_of (htons 2)) in
    let ips = patch (patch op 28 4 (byte_of (word_at f 38))) 38 4 (byte_of (word_at f 28)) in
    patch (patch ips 22 6 (mac_byte ifce.addr)) 32 6 sender

-- The reply `g` to the request `f` by the interface `ifce`.
pub record IsReply (f : Buf) (ifce : Iface) (g : Buf) : Type 0 where
  pub length : g.len ≡ 42
  pub to_sender : mac_at g 0 ≡ mac_at f 6
  pub from_me : mac_at g 6 ≡ ifce.addr
  pub same_type : half_at g 12 ≡ half_at f 12
  pub same_formats :
      (half_at g 14 ≡ half_at f 14) × (half_at g 16 ≡ half_at f 16) × (half_at g 18 ≡ half_at f 18)
  pub is_reply : htons (half_at g 20) ≡ 2
  pub sender_mac : mac_at g 22 ≡ ifce.addr
  pub sender_ip : word_at g 28 ≡ word_at f 38
  pub target_mac : mac_at g 32 ≡ mac_at f 6
  pub target_ip : word_at g 38 ≡ word_at f 28

word-round :
    (a b c d : ℕ)
    → a < 256
    → b < 256
    → c < 256
    → d < 256
    → let w = a + b * 256 + c * 2 ^ 16 + d * 2 ^ 24 in
      byte_of w 0 + byte_of w 1 * 256 + byte_of w 2 * 2 ^ 16 + byte_of w 3 * 2 ^ 24 ≡ w
word-round a b c d ha hb hc hd = omega arith

reply-IsReply :
    (junk at : ℕ → ℕ) (ifce : Iface)
    → HasBytes (frame42 at)
    → IsReply (frame42 at) ifce (frame42 (reply junk at ifce))
reply-IsReply junk at ifce bytes = record {
  length = refl;
  to_sender = refl;
  from_me = refl;
  same_type = refl;
  same_formats = (refl, refl, refl);
  is_reply = refl;
  sender_mac = refl;
  sender_ip =
      word-round (at 38) (at 39) (at 40) (at 41) (bytes 38) (bytes 39) (bytes 40) (bytes 41);
  target_mac = refl;
  target_ip =
      word-round (at 28) (at 29) (at 30) (at 31) (bytes 28) (bytes 29) (bytes 30) (bytes 31);
}

module _ (sr : Instance) (env : Env) (at : ℕ → ℕ) (ifce : Iface) where
  -- A request of 42 bytes for the address of one of the router's interfaces, which is found by its
  -- own name, is answered by one frame on that interface: from it to the sender, with the two pairs
  -- of addresses exchanged and the rest as it came. The state is otherwise unchanged.
  pub answer_request-IsReply :
      HasBytes (frame42 at)
      → ip_2_iface sr (word_at (frame42 at) 38) ≡ some ifce
      → sr_get_interface sr ifce.name ≡ some ifce
      → (g : Buf) × (answer_request sr env (frame42 at) ≡ done (with_frame sr g 42 ifce.name))
        × IsReply (frame42 at) ifce g
  unfolding answer_request ◌>>=◌
  answer_request-IsReply bytes mine named = (
    frame42 (reply env.junk at ifce),
    rw mine (
        sr_send_packet-sent sr (frame42 (reply env.junk at ifce)) 42 ifce.name (omega arith)
          (omega arith) named refl),
    reply-IsReply env.junk at ifce bytes,
  )

-- The whole request is copied into 42 bytes: any longer frame, such as one that Ethernet has padded
-- to 60 bytes, overruns the array, whatever it asks for.
pub answer_request_overrun :
    (sr : Instance) (env : Env) (packet : Buf)
    → 42 < packet.len
    → answer_request sr env packet ≡ fault
unfolding answer_request ◌>>=◌
answer_request_overrun sr env packet long =
    let read : leb (0 + packet.len) packet.len ≡ true = ground arith in
    let write_past : leb (0 + packet.len) 42 ≡ false = ground arith in rw (read, write_past)
