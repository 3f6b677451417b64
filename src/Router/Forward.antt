-- ===== src/Router/Forward.antt =====
-- `forward_ip_packet` of sr_router.c. Offsets in the frame: 14 the IP header (22 its TTL, 23 the
-- protocol, 24 the checksum, 26 the source, 30 the destination), 34 the ICMP header (36 its checksum).
pub mod Transit
pub mod Expired
pub mod Outcome
use cs.Base.{ℕ, ◌+◌, ◌-◌, ◌%◌, ◌^◌, List, Option, none, some, leb, if◌then◌else◌, Run, done, ◌>>=◌}
use cs.Bytes.{
  Buf, load8, load16, load32, store8, store16, store32, store_mac, memcpy, htons, zeroed, copy_of,
}
use cs.Checksum.{cksum}
use cs.Router.State.{Iface, Entry, Instance}
use cs.Router.Interfaces.{sr_get_interface}
use cs.Router.Routes.{find_best_route, target_ip_2_iface}
use cs.Router.Cache.{sr_arpcache_lookup, sr_arpcache_queuereq}
use cs.Router.Send.{sr_send_packet}
use cs.Router.Arp.{with_cache}

-- The frame of the ICMP message of type 11, 14 + 20 + 4 + 4 + 64 + 4 bytes: the addresses of
-- Ethernet and the header of the packet, before the interface is known.
unfoldable pub time_exceeded_head : Buf → Run Buf
time_exceeded_head packet = do
  e ← memcpy (zeroed 110) 6 packet 0 6
  e ← memcpy e 0 packet 6 6
  e ← store16 e 12 (htons 0x0800)
  e ← memcpy e 14 packet 14 20
  src ← load32 packet 26
  store32 e 30 src

unfoldable pub time_exceeded_body : Buf → Buf → Iface → Run Buf
time_exceeded_body packet e via = do
  e ← store32 e 26 via.ip
  e ← store8 e 22 64
  e ← store8 e 23 1
  e ← store16 e 24 0
  ip_sum ← cksum e 14 20
  e ← store16 e 24 ip_sum
  e ← store8 e 34 11
  e ← store8 e 35 0
  e ← memcpy e 42 packet 14 64
  e ← store16 e 36 0
  icmp_sum ← cksum e 34 72
  store16 e 36 icmp_sum

-- The message goes out twice, by the interface that the packet came in by.
unfoldable pub time_exceeded_by : Instance → Buf → Buf → Option Iface → Run Instance
time_exceeded_by sr packet head none = done sr
time_exceeded_by sr packet head (some via) = do
  e ← time_exceeded_body packet head via
  sr' ← sr_send_packet sr e 110 via.name
  sr_send_packet sr' e 110 via.name

unfoldable pub time_exceeded : Instance → Buf → List ℕ → Run Instance
unfolding time_exceeded_by
time_exceeded sr packet interface = do
  head ← time_exceeded_head packet
  time_exceeded_by sr packet head (sr_get_interface sr interface)

-- `ip_ttl--` and `ip_sum++`, the latter on the field as the host reads it.
unfoldable pub age : Buf → ℕ → Run Buf
age f ttl = do f ← store8 f 22 (ttl - 1); sum ← load16 f 24; store16 f 24 ((sum + 1) % 2 ^ 16)

unfoldable pub deliver : Instance → Buf → Iface → Entry → Run Instance
deliver sr f via target = do
  f ← store_mac f 6 via.addr
  f ← store_mac f 0 target.mac
  sr_send_packet sr f f.len via.name

unfoldable pub enqueue : Instance → Buf → Iface → ℕ → Run Instance
enqueue sr f via route = do
  cache ← sr_arpcache_queuereq sr.cache route f f.len via.name
  done (with_cache sr cache)

unfoldable pub resolve : Instance → Buf → Iface → ℕ → Option Entry → Run Instance
unfolding enqueue deliver
resolve sr f via route none = enqueue sr f via route
resolve sr f via route (some target) = deliver sr f via target

unfoldable pub transmit_by : Instance → Buf → ℕ → Option Iface → Run Instance
unfolding resolve
transmit_by sr f route none = done sr
transmit_by sr f route (some via) = resolve sr f via route (sr_arpcache_lookup sr.cache route)

-- To the gateway of the best route for `dst`, by the interface of the best route for the gateway.
unfoldable pub transmit : Instance → Buf → ℕ → Run Instance
unfolding transmit_by
transmit sr f dst =
    let route = find_best_route sr dst in transmit_by sr f route (target_ip_2_iface sr route)

unfoldable pub forward_ip_packet : Instance → Buf → List ℕ → Run Instance
forward_ip_packet sr packet interface = do
  f ← copy_of packet packet.len
  ttl ← load8 f 22
  if leb ttl 1
      then time_exceeded sr packet interface
      else do f ← age f ttl; dst ← load32 packet 30; transmit sr f dst
