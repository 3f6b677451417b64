-- ===== src/Router/Arp.antt =====
-- The ARP half of `sr_handlepacket` (sr_router.c): answering requests and taking in replies.
-- Offsets in the frame: 0 and 6 the hardware addresses of Ethernet, 12 its type; 20 the opcode, 22 and
-- 28 the sender's addresses, 32 and 38 the target's.
pub mod Reply
pub mod Learn
use cs.Base.{
  ℕ, List, [], ◌∷◌, Bool, false, Option, none, some, ◌==◌, if◌then◌else◌, str_eq, Run, done, fault,
  ◌>>=◌, deref,
}
use cs.Bytes.{
  Buf, Mac, load16, load32, load_mac, store16, store32, store_mac, memcpy, htons, fresh_buf,
}
use cs.Router.State.{Iface, Packet, Req, ArpCache, Instance, Env}
use cs.Router.Interfaces.{sr_get_interface, ip_2_iface}
use cs.Router.Cache.{sr_arpcache_insert, sr_arpreq_destroy}
use cs.Router.Send.{sr_send_packet}

-- The reply, once the interface with the wanted address is known; there is none for another's.
unfoldable pub answer_by : Instance → Buf → Buf → Mac → ℕ → Option Iface → Run Instance
answer_by sr packet to_sender src_mac tip none = done sr
answer_by sr packet to_sender src_mac tip (some ifce) = do
  from_me ← store_mac to_sender 6 ifce.addr
  op ← store16 from_me 20 (htons 2)
  sip ← store32 op 28 tip
  asker ← load32 packet 28
  target ← store32 sip 38 asker
  sha ← store_mac target 22 ifce.addr
  reply ← store_mac sha 32 src_mac
  sr_send_packet sr reply 42 ifce.name

-- The frame is built in a local array of 42 bytes, into which the whole request is copied.
unfoldable pub answer_request : Instance → Env → Buf → Run Instance
unfolding answer_by
answer_request sr env packet = do
  copy ← memcpy (fresh_buf 42 env.junk) 0 packet 0 packet.len
  src_mac ← load_mac packet 6
  to_sender ← store_mac copy 0 src_mac
  tip ← load32 packet 38
  answer_by sr packet to_sender src_mac tip (ip_2_iface sr tip)

unfoldable pub flush_one : Mac → Instance → Packet → Run Instance
flush_one mac sr p = do
  iface ← deref (sr_get_interface sr p.iface)
  src ← store_mac p.buf 6 iface.addr
  buf ← store_mac src 0 mac
  sr_send_packet sr buf p.len p.iface

-- The packets that waited go out, with the hardware address that has come.
unfoldable pub flush : Mac → Instance → List Packet → Run Instance
unfolding flush_one
flush mac sr [] = done sr
flush mac sr (p ∷ ps) = flush_one mac sr p >>= λ sr'. flush mac sr' ps

abbrev pub with_cache : Instance → ArpCache → Instance
with_cache sr cache = record sr { cache = cache }

-- `insert` has taken the request off the queue; what is left is to send and to free.
unfoldable pub release : Mac → Instance → Option Req → Run Instance
unfolding flush
release mac sr none = done sr
release mac sr (some req) = do
  sr' ← flush mac sr req.packets
  done (with_cache sr' (sr_arpreq_destroy sr'.cache req))

-- A reply counts if it is for the address of the interface that it came in by.
abbrev pub is_same_iface : Option Iface → Option Iface → Run Bool
is_same_iface none _ = done false
is_same_iface (some src) none = done false
is_same_iface (some src) (some tgt) = done (str_eq src.name tgt.name)

unfoldable pub take_reply : Instance → Env → Buf → List ℕ → Run Instance
unfolding release
take_reply sr env packet interface = do
  tip ← load32 packet 38
  same ← is_same_iface (sr_get_interface sr interface) (ip_2_iface sr tip)
  let learn : Run Instance = do
    sha ← load_mac packet 22
    sip ← load32 packet 28
    let (cache, req) = sr_arpcache_insert env.now sr.cache sha sip
    release sha (with_cache sr cache) req
  if same then learn else done sr

-- Any other opcode is ignored.
unfoldable pub handle_arp : Instance → Env → Buf → List ℕ → Run Instance
handle_arp sr env packet interface = do
  op ← load16 packet 20
  if htons op == 1
      then answer_request sr env packet
      else if htons op == 2
      then take_reply sr env packet interface
      else done sr
