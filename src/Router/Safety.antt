-- ===== src/Router/Safety.antt =====
-- The handlers of sr_router.c as steps in the sense of `Send.Laws`.
use cs.Base.{
  ℕ, List, [], ◌∷◌, Option, none, some, ◌>>=◌, inl, inr, Ensures, returns, next, bind, branch,
  undefined, Run-cases, Ensures-done,
}
use cs.Bytes.{Buf, Mac}
use cs.Router.State.{Iface, Entry, Packet, Req, Instance, Env}
use cs.Router.Interfaces.{sr_get_interface, ip_2_iface}
use cs.Router.Cache.{sr_arpcache_queuereq}
use cs.Router.Cache.Invariant.{
  sr_arpcache_queuereq-IsCache, sr_arpcache_insert-IsCache, sr_arpreq_destroy-IsCache,
}
use cs.Router.Send.Laws.{
  IsStep, IsStep-refl, IsStep-trans, with_cache-IsStep, after, sr_send_packet-IsStep,
}
use cs.Router.Arp.{answer_by, answer_request, flush_one, flush, release, take_reply, handle_arp}
use cs.Router.Forward.{
  time_exceeded_by, time_exceeded, deliver, enqueue, resolve, transmit_by, transmit,
  forward_ip_packet,
}
use cs.Router.Handle.{
  echo_reply, port_unreachable, other_by, handle_other, echo_by, handle_echo_request, handle_icmp,
  handle_ip, sr_handlepacket,
}

answer_by-IsStep :
    (sr : Instance) (packet b : Buf) (m : Mac) (tip : ℕ) (o : Option Iface)
    → Ensures (IsStep sr) (answer_by sr packet b m tip o)
unfolding answer_by
answer_by-IsStep sr packet b m tip none = returns (IsStep-refl sr)
answer_by-IsStep sr packet b m tip (some ifce) = next _ λ a. next _ λ c.
    next _ λ d.
      next _ λ asker. next _ λ e. next _ λ f. next _ λ g. sr_send_packet-IsStep sr g 42 ifce.name

answer_request-IsStep :
    (sr : Instance) (env : Env) (packet : Buf) → Ensures (IsStep sr) (answer_request sr env packet)
unfolding answer_request
answer_request-IsStep sr env packet = next _ λ copy. next _ λ src.
    next _
      λ to_sender. next _ λ tip. answer_by-IsStep sr packet to_sender src tip (ip_2_iface sr tip)

flush_one-IsStep :
    (mac : Mac) (sr : Instance) (p : Packet) → Ensures (IsStep sr) (flush_one mac sr p)
unfolding flush_one
flush_one-IsStep mac sr p =
    next _ λ iface. next _ λ src. next _ λ buf. sr_send_packet-IsStep sr buf p.len p.iface

flush-IsStep :
    (mac : Mac) (sr : Instance) (ps : List Packet) → Ensures (IsStep sr) (flush mac sr ps)
unfolding flush
flush-IsStep mac sr [] = returns (IsStep-refl sr)
flush-IsStep mac sr (p ∷ ps) =
    bind {f = λ sr'. flush mac sr' ps} (flush_one-IsStep mac sr p)
      λ sr' s. after s (flush-IsStep mac sr' ps)

release-IsStep :
    (mac : Mac) (sr : Instance) (req : Option Req) → Ensures (IsStep sr) (release mac sr req)
unfolding release
release-IsStep mac sr none = returns (IsStep-refl sr)
release-IsStep mac sr (some req) = bind (flush-IsStep mac sr req.packets) λ sr' s.
    returns (IsStep-trans s (with_cache-IsStep sr' _ (sr_arpreq_destroy-IsCache sr'.cache req)))

take_reply-IsStep :
    (sr : Instance) (env : Env) (packet : Buf) (interface : List ℕ)
    → Ensures (IsStep sr) (take_reply sr env packet interface)
unfolding take_reply
take_reply-IsStep sr env packet interface = next _ λ tip. next _ λ same.
    branch same
      (next _ λ sha. next _ λ sip.
        after (with_cache-IsStep sr _ (sr_arpcache_insert-IsCache sr.cache env.now sha sip))
          (release-IsStep sha _ _))
      (returns (IsStep-refl sr))

handle_arp-IsStep :
    (sr : Instance) (env : Env) (packet : Buf) (interface : List ℕ)
    → Ensures (IsStep sr) (handle_arp sr env packet interface)
unfolding handle_arp
handle_arp-IsStep sr env packet interface = next _ λ op.
    branch _ (answer_request-IsStep sr env packet)
      (branch _ (take_reply-IsStep sr env packet interface) (returns (IsStep-refl sr)))

time_exceeded_by-IsStep :
    (sr : Instance) (packet head : Buf) (o : Option Iface)
    → Ensures (IsStep sr) (time_exceeded_by sr packet head o)
unfolding time_exceeded_by
time_exceeded_by-IsStep sr packet head none = returns (IsStep-refl sr)
time_exceeded_by-IsStep sr packet head (some via) = next _ λ b.
    bind (sr_send_packet-IsStep sr b 110 via.name)
      λ sr' s. after s (sr_send_packet-IsStep sr' b 110 via.name)

time_exceeded-IsStep :
    (sr : Instance) (packet : Buf) (interface : List ℕ)
    → Ensures (IsStep sr) (time_exceeded sr packet interface)
unfolding time_exceeded
time_exceeded-IsStep sr packet interface =
    next _ λ head. time_exceeded_by-IsStep sr packet head (sr_get_interface sr interface)

deliver-IsStep :
    (sr : Instance) (f : Buf) (via : Iface) (target : Entry)
    → Ensures (IsStep sr) (deliver sr f via target)
unfolding deliver
deliver-IsStep sr f via target = next _ λ a. next _ λ b. sr_send_packet-IsStep sr b b.len via.name

enqueue-IsStep :
    (sr : Instance) (f : Buf) (via : Iface) (route : ℕ)
    → Ensures (IsStep sr) (enqueue sr f via route)
unfolding enqueue ◌>>=◌
enqueue-IsStep sr f via route =
    elim (Run-cases (sr_arpcache_queuereq sr.cache route f f.len via.name)) [
      | inl (c, e) ↦ rw e (
          returns (
            with_cache-IsStep sr c
              λ v. Ensures-done (sr_arpcache_queuereq-IsCache sr.cache route f f.len via.name v) e))
      | inr e ↦ rw e undefined
    ]

resolve-IsStep :
    (sr : Instance) (f : Buf) (via : Iface) (route : ℕ) (o : Option Entry)
    → Ensures (IsStep sr) (resolve sr f via route o)
unfolding resolve
resolve-IsStep sr f via route none = enqueue-IsStep sr f via route
resolve-IsStep sr f via route (some e) = deliver-IsStep sr f via e

transmit_by-IsStep :
    (sr : Instance) (f : Buf) (route : ℕ) (o : Option Iface)
    → Ensures (IsStep sr) (transmit_by sr f route o)
unfolding transmit_by
transmit_by-IsStep sr f route none = returns (IsStep-refl sr)
transmit_by-IsStep sr f route (some via) = resolve-IsStep sr f via route _

forward_ip_packet-IsStep :
    (sr : Instance) (packet : Buf) (interface : List ℕ)
    → Ensures (IsStep sr) (forward_ip_packet sr packet interface)
unfolding forward_ip_packet transmit
forward_ip_packet-IsStep sr packet interface = next _ λ f. next _ λ ttl.
    branch _ (time_exceeded-IsStep sr packet interface)
      (next _ λ g. next _ λ dst. transmit_by-IsStep sr g _ _)

echo_reply-IsStep : (sr : Instance) (packet : Buf) → Ensures (IsStep sr) (echo_reply sr packet)
unfolding echo_reply
echo_reply-IsStep sr packet =
    next _ λ r. next _ λ mac. next _ λ via. sr_send_packet-IsStep sr r packet.len via.name

port_unreachable-IsStep :
    (sr : Instance) (env : Env) (packet : Buf)
    → Ensures (IsStep sr) (port_unreachable sr env packet)
unfolding port_unreachable
port_unreachable-IsStep sr env packet =
    next _ λ u. next _ λ mac. next _ λ via. sr_send_packet-IsStep sr u 74 via.name

module _ (sr : Instance) (env : Env) (packet : Buf) (interface : List ℕ) where
  other_by-IsStep : (o : Option Iface) → Ensures (IsStep sr) (other_by sr env packet interface o)
  unfolding other_by
  other_by-IsStep none = forward_ip_packet-IsStep sr packet interface
  other_by-IsStep (some _) = port_unreachable-IsStep sr env packet

  handle_other-IsStep : Ensures (IsStep sr) (handle_other sr env packet interface)
  unfolding handle_other
  handle_other-IsStep = next _ λ dst. other_by-IsStep (ip_2_iface sr dst)

  echo_by-IsStep : (o : Option Iface) → Ensures (IsStep sr) (echo_by sr packet interface o)
  unfolding echo_by
  echo_by-IsStep none = forward_ip_packet-IsStep sr packet interface
  echo_by-IsStep (some _) = echo_reply-IsStep sr packet

  handle_echo_request-IsStep : Ensures (IsStep sr) (handle_echo_request sr packet interface)
  unfolding handle_echo_request
  handle_echo_request-IsStep = next _ λ dst. echo_by-IsStep (ip_2_iface sr dst)

  handle_icmp-IsStep : Ensures (IsStep sr) (handle_icmp sr env packet interface)
  unfolding handle_icmp
  handle_icmp-IsStep = next _ λ t.
      branch _ handle_echo_request-IsStep
        (branch _ (forward_ip_packet-IsStep sr packet interface) handle_other-IsStep)

  handle_ip-IsStep : Ensures (IsStep sr) (handle_ip sr env packet interface)
  unfolding handle_ip
  handle_ip-IsStep = next _ λ p. branch _ handle_icmp-IsStep handle_other-IsStep

  -- Whatever frame comes in by whatever interface: if `sr_handlepacket` returns, it has sent genuine
  -- frames only, on top of those sent before, left the interfaces and the routes alone, and kept the
  -- invariant of the ARP cache.
  pub sr_handlepacket-IsStep : Ensures (IsStep sr) (sr_handlepacket sr env packet interface)
  unfolding sr_handlepacket
  sr_handlepacket-IsStep = next _ λ t.
      branch _ (handle_arp-IsStep sr env packet interface)
        (branch _ handle_ip-IsStep (returns (IsStep-refl sr)))
