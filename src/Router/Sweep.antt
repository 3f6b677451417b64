-- ===== src/Router/Sweep.antt =====
-- `sr_arpcache_sweepreqs` and `sr_arpcache_timeout` of sr_arpcache.c: once a second every waiting
-- request is sent again, and one that was sent five times is given up.
pub mod Limits
pub mod Fate
use cs.Base.{
  ℕ, ◌+◌, ◌%◌, ◌^◌, List, [], ◌∷◌, Option, none, some, leb, if◌then◌else◌, Run, done, ◌>>=◌, deref,
}
use cs.Bytes.{
  Buf, Mac, load32, store8, store16, store32, store_mac, memcpy, memcpy_before, htons, zeroed,
  fresh_buf,
}
use cs.Checksum.{cksum}
use cs.Router.State.{Iface, Packet, Req, Instance, Env}
use cs.Router.Routes.{target_ip_2_iface}
use cs.Router.Cache.{no_mac, sr_arpreq_destroy, expire_all}
use cs.Router.Send.{sr_send_packet}
use cs.Router.Arp.{with_cache}

abbrev pub broadcast : Mac
broadcast = record { b0 = 255; b1 = 255; b2 = 255; b3 = 255; b4 = 255; b5 = 255 }

unfoldable pub arp_request_frame : Iface → ℕ → Run Buf
arp_request_frame via ip = do
  a ← store_mac (zeroed 42) 6 via.addr
  a ← store_mac a 0 broadcast
  a ← store16 a 12 (htons 0x0806)
  a ← store16 a 14 (htons 1)
  a ← store16 a 16 (htons 0x0800)
  a ← store8 a 18 6
  a ← store8 a 19 4
  a ← store16 a 20 (htons 1)
  a ← store_mac a 22 via.addr
  a ← store32 a 28 via.ip
  a ← store_mac a 32 no_mac
  store32 a 38 ip

-- The message of type 3 and code 1 for a packet that waited, in the block `u` that all share. The
-- 28 bytes of data are copied to 32 bytes in front of the block.
unfoldable pub host_unreachable : Instance → Buf → Packet → Run (Buf × Instance)
host_unreachable sr u p = do
  u ← memcpy u 14 p.buf 14 20
  src ← load32 p.buf 26
  u ← store32 u 30 src
  via ← deref (target_ip_2_iface sr src)
  u ← store32 u 26 via.ip
  u ← store8 u 23 1
  u ← store8 u 22 64
  u ← store16 u 16 (htons 56)
  u ← store16 u 24 0
  ip_sum ← cksum u 14 20
  u ← store16 u 24 ip_sum
  u ← store8 u 34 3
  u ← store8 u 35 1
  u ← store16 u 36 0
  u ← store16 u 38 0
  u ← store16 u 40 0
  u ← memcpy_before u 32 p.buf 14 28
  icmp_sum ← cksum u 34 36
  u ← store16 u 36 icmp_sum
  u ← store_mac u 6 via.addr
  u ← memcpy u 0 p.buf 6 6
  u ← store16 u 12 (htons 0x0800)
  sr' ← sr_send_packet sr u 74 via.name
  done (u, sr')

unfoldable pub reject_all : Instance → Buf → List Packet → Run Instance
unfolding host_unreachable
reject_all sr u [] = done sr
reject_all sr u (p ∷ ps) = host_unreachable sr u p >>= λ (u', sr'). reject_all sr' u' ps

-- The state after the walk: the requests with their counts, and the one to destroy, if the walk
-- stopped there.
pub record Swept : Type 0 where
  pub sr : Instance
  pub requests : List Req
  pub dead : Option Req

abbrev pub counted : Req → Req
counted r = record r { times_sent = (r.times_sent + 1) % 2 ^ 32 }

abbrev pub swept : Instance → List Req → Option Req → Swept
swept sr rs dead = record { sr = sr; requests = rs; dead = dead }

abbrev pub with_counted : Req → Swept → Swept
with_counted r w = record w { requests = counted r ∷ w.requests }

unfoldable pub give_up : Env → Instance → Req → List Req → Run Swept
unfolding reject_all
give_up env sr r rs = do
  sr' ← reject_all sr (fresh_buf 74 env.junk) r.packets
  done (swept sr' (counted r ∷ rs) (some (counted r)))

-- The request goes out, and `walk` goes on with the rest.
unfoldable pub send_again : Instance → Buf → Iface → Req → (Instance → Run Swept) → Run Swept
send_again sr arp via r walk = do
  sr' ← sr_send_packet sr arp 42 via.name
  rest ← walk sr'
  done (with_counted r rest)

-- A request with no route ends the walk, and so does one that is given up.
unfoldable pub sweep_by :
    Env → Instance → Req → List Req → (Instance → Run Swept) → Option Iface → Run Swept
unfolding arp_request_frame give_up send_again
sweep_by env sr r rs walk none = done (swept sr (r ∷ rs) none)
sweep_by env sr r rs walk (some via) = do
  arp ← arp_request_frame via r.ip
  if leb 5 r.times_sent then give_up env sr r rs else send_again sr arp via r walk

unfoldable pub sweep_loop : Env → Instance → List Req → Run Swept
unfolding sweep_by
sweep_loop env sr [] = done (swept sr [] none)
sweep_loop env sr (r ∷ rs) =
    sweep_by env sr r rs (λ sr'. sweep_loop env sr' rs) (target_ip_2_iface sr r.ip)

abbrev pub finish : Swept → Instance
finish w =
    let cache = record w.sr.cache { requests = w.requests } in
    with_cache w.sr (elim w.dead [ none ↦ cache | some r ↦ sr_arpreq_destroy cache r ])

unfoldable pub sr_arpcache_sweepreqs : Env → Instance → Run Instance
sr_arpcache_sweepreqs env sr = do w ← sweep_loop env sr sr.cache.requests; done (finish w)

-- One round of the thread, which holds the lock throughout.
unfoldable pub sr_arpcache_timeout : Env → Instance → Run Instance
sr_arpcache_timeout env sr =
    sr_arpcache_sweepreqs env
      (with_cache sr (record sr.cache { entries = expire_all env.now sr.cache.entries }))
