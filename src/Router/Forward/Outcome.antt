-- ===== src/Router/Forward/Outcome.antt =====
-- What becomes of a packet that is forwarded: sent on, queued, or dropped.
use cs.Base.{
  ℕ, ◌+◌, ◌≤◌, ◌<◌, ◌≡◌, refl, ◌≢◌, ◌∙◌, List, ◌∷◌, some, none, true, false, ◌==◌, leb, arith, done,
  ◌>>=◌, le→leb, lt→leb, if◌then◌else◌,
}
use cs.Bytes.{Buf, Mac, mac_at, word_at, patch, mac_byte}
use cs.Router.State.{Iface, Entry, ArpCache, Instance}
use cs.Router.Interfaces.{sr_get_interface}
use cs.Router.Routes.{find_best_route, target_ip_2_iface}
use cs.Router.Cache.{sr_arpcache_lookup}
use cs.Router.Cache.Queue.{waiting, packet_of, queuereq-waiting}
use cs.Router.Send.{with_frame}
use cs.Router.Send.Laws.{sr_send_packet-sent}
use cs.Router.Arp.{with_cache}
use cs.Router.Forward.{deliver, enqueue, resolve, transmit_by, transmit, forward_ip_packet}
use cs.Router.Forward.Transit.{aged, age-aged}

-- The frame `g` that a packet `f` leaves as: from `via` to `mac`, one less to live, and, apart from
-- the checksum, otherwise as it came.
pub record IsHop (f : Buf) (via : Iface) (mac : Mac) (g : Buf) : Type 0 where
  pub length : g.len ≡ f.len
  pub to_next : mac_at g 0 ≡ mac
  pub from_me : mac_at g 6 ≡ via.addr
  pub older : g.at 22 + 1 ≡ f.at 22
  pub rest : (i : ℕ) → 12 ≤ i → i ≢ 22 → i ≢ 24 → i ≢ 25 → g.at i ≡ f.at i

abbrev hop : Buf → Iface → Mac → Buf
hop f via mac = record f {
  at = patch (patch (aged f).at 6 6 (mac_byte via.addr)) 0 6 (mac_byte mac);
}

hop-IsHop :
    (f : Buf) (via : Iface) (mac : Mac)
    → 0 < f.at 22
    → f.at 22 < 256
    → IsHop f via mac (hop f via mac)
hop-IsHop f via mac alive byte = record {
  length = refl;
  to_next = refl;
  from_me = refl;
  older = omega arith;
  rest = λ i a b c d. ground arith;
}

-- A packet that is whole and has more than one hop to live.
abbrev pub IsAlive : Buf → Type 0
IsAlive f = (34 ≤ f.len) × (1 < f.at 22) × (f.at 22 < 256)

module _ (sr : Instance) (f : Buf) (interface : List ℕ) (alive : IsAlive f) where
  forward-transmit : forward_ip_packet sr f interface ≡ transmit sr (aged f) (word_at f 30)
  unfolding forward_ip_packet ◌>>=◌
  forward-transmit =
      let a : leb (0 + f.len) f.len ≡ true = ground arith in
      let b : leb 23 f.len ≡ true = le→leb 23 f.len (omega arith) in
      let c : leb 34 f.len ≡ true = le→leb 34 f.len (omega arith) in
      let d : leb (f.at 22) 1 ≡ false = lt→leb (f.at 22) 1 (omega arith) in
      rw (a, b, d, age-aged f alive.0, c)

  abbrev route : ℕ
  route = find_best_route sr (word_at f 30)

  -- A packet of at least 34 bytes with more than one hop to live, whose gateway's hardware address
  -- is in the cache, goes out at once by the interface of the gateway's route, if that interface is
  -- found by its own name: from it to the gateway, one hop older and, apart from the checksum, as
  -- it came. The state is otherwise unchanged.
  pub forward-sent :
      (via : Iface) (target : Entry)
      → target_ip_2_iface sr route ≡ some via
      → sr_arpcache_lookup sr.cache route ≡ some target
      → sr_get_interface sr via.name ≡ some via
      → (g : Buf) × (forward_ip_packet sr f interface ≡ done (with_frame sr g f.len via.name))
        × IsHop f via target.mac g
  unfolding transmit transmit_by resolve deliver ◌>>=◌
  forward-sent via target to known named = (
    hop f via target.mac,
    forward-transmit
        ∙ (let a : leb 12 f.len ≡ true = le→leb 12 f.len (omega arith) in
            let b : leb 6 f.len ≡ true = le→leb 6 f.len (omega arith) in
            rw (to, known, a, b)
              (sr_send_packet-sent sr (hop f via target.mac) f.len via.name (omega arith)
                (omega arith) named refl)),
    hop-IsHop f via target.mac (omega arith) alive.2,
  )

  -- A packet of at least 34 bytes with more than one hop to live, whose gateway has a route by an
  -- interface but no hardware address in the cache, waits for the gateway in front of those that
  -- wait already, aged but otherwise as it came; nothing is sent, and nothing else in the state
  -- changes.
  pub forward-queued :
      (via : Iface)
      → target_ip_2_iface sr route ≡ some via
      → sr_arpcache_lookup sr.cache route ≡ none
      → (d : ArpCache) × (forward_ip_packet sr f interface ≡ done (with_cache sr d))
        × (d.entries ≡ sr.cache.entries)
        × ((j : ℕ)
            → waiting j d.requests ≡ (
                if j == route
                then packet_of (aged f) f.len via.name ∷ waiting j sr.cache.requests
                else waiting j sr.cache.requests))
  unfolding transmit transmit_by resolve enqueue ◌>>=◌
  forward-queued via to unknown =
      let (d, e, same, waits) =
        queuereq-waiting sr.cache route (aged f) f.len via.name (omega arith) (omega arith) in
      (d, forward-transmit ∙ rw (to, unknown, e), same, waits)

  -- A packet of at least 34 bytes with more than one hop to live is dropped when its gateway has no
  -- route by an interface; the state stays.
  pub forward-dropped :
      target_ip_2_iface sr route ≡ none → forward_ip_packet sr f interface ≡ done sr
  unfolding transmit transmit_by
  forward-dropped to = forward-transmit ∙ rw to
