-- ===== src/Router/Handle.antt =====
-- `sr_handlepacket` of sr_router.c: the dispatch, the echo reply and the port-unreachable message.
-- The length passed with a frame is that of its buffer.
pub mod Echo
pub mod Unreachable
use cs.Base.{
  ℕ, ◌+◌, ◌%◌, ◌^◌, List, Option, none, some, ◌==◌, if◌then◌else◌, Run, done, ◌>>=◌, deref,
}
use cs.Bytes.{
  Buf, load8, load16, load32, load_mac, store8, store16, store32, memcpy, htons, copy_of, fresh_buf,
}
use cs.Checksum.{cksum}
use cs.Router.State.{Iface, Instance, Env}
use cs.Router.Interfaces.{ip_2_iface, mac_2_iface}
use cs.Router.Send.{sr_send_packet}
use cs.Router.Arp.{handle_arp}
use cs.Router.Forward.{forward_ip_packet}

-- The checksum is updated by adding 0x0800 in host order.
unfoldable pub echo_reply_frame : Buf → Run Buf
echo_reply_frame packet = do
  r ← copy_of packet packet.len
  r ← store8 r 34 0
  dst ← load32 packet 30
  r ← store32 r 26 dst
  src ← load32 packet 26
  r ← store32 r 30 src
  sum ← load16 packet 36
  r ← store16 r 36 (htons ((htons sum + 0x0800) % 2 ^ 16))
  r ← memcpy r 0 packet 6 6
  memcpy r 6 packet 0 6

unfoldable pub echo_reply : Instance → Buf → Run Instance
echo_reply sr packet = do
  r ← echo_reply_frame packet
  mac ← load_mac packet 0
  via ← deref (mac_2_iface sr mac)
  sr_send_packet sr r packet.len via.name

-- The message of type 3 and code 3, 14 + 20 + 36 + 4 bytes.
unfoldable pub port_unreachable_frame : Env → Buf → Run Buf
port_unreachable_frame env packet = do
  u ← memcpy (fresh_buf 74 env.junk) 0 packet 6 6
  u ← memcpy u 6 packet 0 6
  u ← store16 u 12 (htons 0x0800)
  u ← memcpy u 14 packet 14 20
  src ← load32 packet 26
  u ← store32 u 30 src
  dst ← load32 packet 30
  u ← store32 u 26 dst
  u ← store16 u 16 (htons 56)
  u ← store8 u 22 64
  u ← store8 u 23 1
  u ← store16 u 24 0
  ip_sum ← cksum u 14 20
  u ← store16 u 24 ip_sum
  u ← store8 u 34 3
  u ← store8 u 35 3
  u ← store16 u 36 0
  u ← store16 u 38 0
  u ← store16 u 40 0
  icmp_sum ← cksum u 34 36
  u ← store16 u 36 icmp_sum
  memcpy u 34 packet 14 28

-- The interface is looked up by the destination of the message, not by its source.
unfoldable pub port_unreachable : Instance → Env → Buf → Run Instance
port_unreachable sr env packet = do
  u ← port_unreachable_frame env packet
  mac ← load_mac u 0
  via ← deref (mac_2_iface sr mac)
  sr_send_packet sr u 74 via.name

-- What is neither an echo request nor an echo reply.
unfoldable pub other_by : Instance → Env → Buf → List ℕ → Option Iface → Run Instance
other_by sr env packet interface none = forward_ip_packet sr packet interface
other_by sr env packet interface (some _) = port_unreachable sr env packet

unfoldable pub handle_other : Instance → Env → Buf → List ℕ → Run Instance
unfolding other_by
handle_other sr env packet interface = do
  dst ← load32 packet 30
  other_by sr env packet interface (ip_2_iface sr dst)

unfoldable pub echo_by : Instance → Buf → List ℕ → Option Iface → Run Instance
echo_by sr packet interface none = forward_ip_packet sr packet interface
echo_by sr packet interface (some _) = echo_reply sr packet

unfoldable pub handle_echo_request : Instance → Buf → List ℕ → Run Instance
unfolding echo_by
handle_echo_request sr packet interface = do
  dst ← load32 packet 30
  echo_by sr packet interface (ip_2_iface sr dst)

unfoldable pub handle_icmp : Instance → Env → Buf → List ℕ → Run Instance
unfolding handle_echo_request handle_other
handle_icmp sr env packet interface = do
  icmp_type ← load8 packet 34
  if icmp_type == 8
      then handle_echo_request sr packet interface
      else if icmp_type == 0
      then forward_ip_packet sr packet interface
      else handle_other sr env packet interface

unfoldable pub handle_ip : Instance → Env → Buf → List ℕ → Run Instance
unfolding handle_icmp handle_other
handle_ip sr env packet interface = do
  protocol ← load8 packet 23
  if protocol == 1
      then handle_icmp sr env packet interface
      else handle_other sr env packet interface

unfoldable pub sr_handlepacket : Instance → Env → Buf → List ℕ → Run Instance
sr_handlepacket sr env packet interface = do
  ether_type ← load16 packet 12
  if htons ether_type == 0x0806
      then handle_arp sr env packet interface
      else if htons ether_type == 0x0800
      then handle_ip sr env packet interface
      else done sr
