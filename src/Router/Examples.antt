-- ===== src/Router/Examples.antt =====
-- The theorems about the router, each on a small network.
use cs.Base.{
  ◌==◌, ◌&&◌, ℕ, ◌+◌, ◌≡◌, ◌≢◌, refl, ◌↔◌, ◌⊎◌, [], ◌∷◌, some, arith, ◌>>=◌, done, Ensures, str_eq,
  if◌then◌else◌,
}
use cs.Bytes.{Buf, word_at, half_at}
use cs.Checksum.{cksum}
use cs.Checksum.Laws.{word_sum, IsSummed, IsChecksum, cksum-IsChecksum}
use cs.Router.State.{Rt, Instance}
use cs.Router.Network.{
  of_bytes-HasBytes, address, eth0, eth1, eth0_name, eth1_name, gateway, gateway_mac, known,
  network, quiet, informed, isolated, moment, transit_bytes, transit, last_hop_bytes, last_hop,
  echo_bytes, echo, arp_request_bytes, arp_request, arp_reply, parked, asking, expecting,
}
use cs.Router.Interfaces.{find_name, sr_get_interface, ip_2_iface, mac_2_iface, find_ip, find_mac}
use cs.Router.Routes.{best_loop, find_best_route, target_ip_2_iface}
use cs.Router.Routes.Best.{IsRouted, IsUnrouted, find_best_route-IsRouted}
use cs.Router.Cache.{
  sr_arpcache_init, sr_arpcache_lookup, lookup_loop, find_request, sr_arpcache_insert,
}
use cs.Router.Cache.Invariant.{IsCache}
use cs.Router.Cache.Mapping.{takes, entered, lookup-insert}
use cs.Router.Send.{with_frame}
use cs.Router.Send.Laws.{IsStep}
use cs.Router.Arp.{answer_request, take_reply}
use cs.Router.Arp.Reply.{frame42, IsReply, answer_request-IsReply}
use cs.Router.Arp.Learn.{IsReady, flushed, take_reply-flushed}
use cs.Router.Forward.{age, forward_ip_packet}
use cs.Router.Forward.Transit.{age-IsSummed}
use cs.Router.Forward.Outcome.{IsHop, IsAlive, forward-sent, forward-dropped}
use cs.Router.Forward.Expired.{IsTimeExceeded, forward-IsTimeExceeded}
use cs.Router.Handle.{echo_reply, handle_ip, handle_other, other_by, sr_handlepacket}
use cs.Router.Handle.Echo.{IsEchoReply, echo_reply-IsEchoReply}
use cs.Router.Sweep.{sr_arpcache_sweepreqs}
use cs.Router.Sweep.Fate.{IsDue, Asked, sweepreqs-Resent}
use cs.Router.Safety.{sr_handlepacket-IsStep}
use cs.Router.Run.{
  Reach, booted, booted-IsStep, start_here, then_locked, inserts, Interleaved-IsCache,
}
use cs.Router.Cache.Queue.{waiting}

cksum-IsChecksum_example : (c : ℕ) × (cksum transit 14 20 ≡ done c) × IsChecksum transit 14 20 c
cksum-IsChecksum_example =
    cksum-IsChecksum transit 14 20 (of_bytes-HasBytes transit_bytes refl) (omega arith)
      (omega arith)

find_best_route-IsRouted_example :
    ((r : Rt) × IsRouted quiet (address 10 0 1 9) r) ⊎ IsUnrouted quiet (address 10 0 1 9)
find_best_route-IsRouted_example = find_best_route-IsRouted quiet (address 10 0 1 9)

to_gateway : target_ip_2_iface quiet gateway ≡ some eth1
unfolding target_ip_2_iface best_loop sr_get_interface find_name str_eq
to_gateway = refl

route_of_transit : find_best_route quiet (word_at transit 30) ≡ gateway
unfolding find_best_route best_loop
route_of_transit = refl

named_eth1 : sr_get_interface quiet eth1_name ≡ some eth1
unfolding sr_get_interface find_name str_eq
named_eth1 = refl

named_eth0 : sr_get_interface quiet eth0_name ≡ some eth0
unfolding sr_get_interface find_name str_eq
named_eth0 = refl

transit-IsAlive : IsAlive transit
transit-IsAlive = (omega arith, omega arith, omega arith)

age-IsSummed_example :
    (g : Buf) × (age transit 64 ≡ done g)
    × (g.at 22 + 1 ≡ 64)
    × (IsSummed g 14 20 ↔ (half_at transit 24 ≢ 0xffff))
unfolding word_sum
age-IsSummed_example =
    age-IsSummed transit (of_bytes-HasBytes transit_bytes refl) (omega arith) (omega arith) refl

forward-sent_example :
    (g : Buf) × (forward_ip_packet informed transit eth0_name
      ≡ done (with_frame informed g transit.len eth1_name))
    × IsHop transit eth1 gateway_mac g
unfolding target_ip_2_iface find_best_route best_loop sr_get_interface find_name str_eq
    sr_arpcache_lookup lookup_loop
forward-sent_example =
    forward-sent informed transit eth0_name transit-IsAlive eth1 known refl refl refl

forward-IsTimeExceeded_example :
    (g : Buf) × (forward_ip_packet quiet last_hop eth0_name
      ≡ done (with_frame (with_frame quiet g 110 eth0_name) g 110 eth0_name))
    × IsTimeExceeded last_hop eth0 g
forward-IsTimeExceeded_example =
    forward-IsTimeExceeded quiet last_hop eth0_name eth0 (of_bytes-HasBytes last_hop_bytes refl)
      (omega arith) (omega arith) (omega arith) named_eth0 named_eth0 refl

lookup-insert_example :
    sr_arpcache_lookup (sr_arpcache_insert 9 quiet.cache gateway_mac gateway).0 gateway
    ≡ some (entered 9 gateway_mac gateway)
unfolding takes sr_arpcache_lookup sr_arpcache_insert
lookup-insert_example = lookup-insert 9 gateway_mac gateway quiet.cache gateway

expecting-IsCache : IsCache (expecting 0)
expecting-IsCache = record {
  size = refl;
  queue = record { distinct = (tt, tt); below = (omega arith, tt); bounded = (omega arith, tt) };
}

answer_request-IsReply_example :
    (g : Buf) × (answer_request quiet moment (frame42 arp_request.at)
      ≡ done (with_frame quiet g 42 eth0_name))
    × IsReply (frame42 arp_request.at) eth0 g
unfolding ip_2_iface find_ip
answer_request-IsReply_example =
    answer_request-IsReply quiet moment arp_request.at eth0
      (of_bytes-HasBytes arp_request_bytes refl) refl named_eth0

parked-IsReady : IsReady (network (expecting 0)).if_list parked
unfolding find_name str_eq
parked-IsReady = record { via = eth1; known = refl; long = omega arith; whole = refl }

take_reply-flushed_example :
    take_reply (network (expecting 0)) moment arp_reply eth1_name
      ≡ done (record (network (expecting 0)) {
        cache = (sr_arpcache_insert 9 (expecting 0) gateway_mac gateway).0;
        sent = flushed gateway_mac (eth0 ∷ eth1 ∷ []) (parked ∷ []) (parked-IsReady, tt) [];
      })
    × ((j : ℕ)
        → sr_arpcache_lookup (sr_arpcache_insert 9 (expecting 0) gateway_mac gateway).0 j ≡ (
            if (j == gateway) && takes gateway (expecting 0).entries
            then some (entered 9 gateway_mac gateway)
            else sr_arpcache_lookup (expecting 0) j))
    × ((j : ℕ)
        → waiting j (sr_arpcache_insert 9 (expecting 0) gateway_mac gateway).0.requests
          ≡ (if j == gateway then [] else waiting j (expecting 0).requests))
unfolding sr_get_interface find_name str_eq ip_2_iface find_ip find_request
take_reply-flushed_example =
    take_reply-flushed (network (expecting 0)) moment arp_reply eth1_name eth1 eth1 (asking 0)
      (parked-IsReady, tt) expecting-IsCache (omega arith, refl, refl, refl) refl

echo_reply-IsEchoReply_example :
    (g : Buf) × (echo_reply quiet echo ≡ done (with_frame quiet g echo.len eth0_name))
    × IsEchoReply echo g
unfolding mac_2_iface find_mac
echo_reply-IsEchoReply_example =
    echo_reply-IsEchoReply quiet echo (omega arith) eth0 (of_bytes-HasBytes echo_bytes refl) refl
      refl named_eth0

asking-IsDue : IsDue (network (expecting 0)) (asking 0)
unfolding target_ip_2_iface best_loop sr_get_interface find_name str_eq
asking-IsDue = record {
  few = omega arith;
  via = eth1;
  to = refl;
  named = refl;
  via_word = omega arith;
  ip_word = omega arith;
}

sweepreqs-Resent_example :
    (sr' : Instance) × (sr_arpcache_sweepreqs moment (network (expecting 0)) ≡ done sr')
    × (sr'.cache.requests ≡ asking 1 ∷ [])
    × (sr'.cache.entries ≡ (expecting 0).entries)
    × Asked (network (expecting 0)) (asking 0 ∷ []) [] sr'.sent
sweepreqs-Resent_example = sweepreqs-Resent moment (network (expecting 0)) (asking-IsDue, tt)

sr_handlepacket-IsStep_example :
    Ensures (IsStep quiet) (sr_handlepacket quiet moment transit eth0_name)
sr_handlepacket-IsStep_example = sr_handlepacket-IsStep quiet moment transit eth0_name

transit-dropped : sr_handlepacket isolated moment transit eth0_name ≡ done isolated
unfolding sr_handlepacket handle_ip handle_other other_by ip_2_iface find_ip target_ip_2_iface
    find_best_route best_loop ◌>>=◌
transit-dropped = forward-dropped isolated transit eth0_name transit-IsAlive refl

booted-IsStep_example : IsStep (booted isolated 0) isolated × IsCache isolated.cache
unfolding sr_arpcache_init
booted-IsStep_example =
    booted-IsStep isolated isolated 0
      (Reach.receive moment transit eth0_name Reach.here transit-dropped)

abbrev empty : Instance
empty = record quiet { if_list = [] }

Interleaved-IsCache_example :
    IsCache (sr_arpcache_insert 9 (sr_arpcache_init 4) gateway_mac gateway).0
Interleaved-IsCache_example =
    Interleaved-IsCache 4 (then_locked start_here (inserts 9 gateway_mac gateway))
