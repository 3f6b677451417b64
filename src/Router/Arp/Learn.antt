-- ===== src/Router/Arp/Learn.antt =====
-- Taking in an ARP reply: the mapping is entered where there is room, and what waited for it is sent.
use cs.Base.{
  ℕ, ◌≤◌, ◌≡◌, ◌==◌, ◌&&◌, if◌then◌else◌, refl, ap, ◌∙◌, List, [], ◌∷◌, some, none, true, leb,
  arith, done, ◌>>=◌, le→leb, All, str_eq_refl, take,
}
use cs.Bytes.{Buf, Mac, mac_at, word_at, patch, mac_byte}
use cs.Router.State.{Iface, Packet, Req, Frame, ArpCache, Instance, Env}
use cs.Router.Interfaces.{find_name, sr_get_interface, ip_2_iface}
use cs.Router.Cache.Mapping.{takes, entered, lookup-insert}
use cs.Router.Cache.Queue.{waiting, insert-waiting}
use cs.Router.Cache.{sr_arpcache_lookup, find_request, sr_arpcache_insert, sr_arpreq_destroy}
use cs.Router.Cache.Invariant.{IsCache, unlink-detach}
use cs.Router.Send.Laws.{sr_send_packet-sent}
use cs.Router.Arp.{flush_one, flush, release, with_cache, take_reply}

-- The waiting packet with its two hardware addresses filled in.
abbrev pub addressed : Mac → Iface → Packet → Buf
addressed mac via p = record {
  len = p.len;
  at = patch (patch p.buf.at 6 6 (mac_byte via.addr)) 0 6 (mac_byte mac);
}

-- A packet that can be sent: it is complete, and its interface is among `ifs`.
pub record IsReady (ifs : List Iface) (p : Packet) : Type 0 where
  pub via : Iface
  pub known : find_name p.iface ifs ≡ some via
  pub long : 14 ≤ p.len
  pub whole : p.buf.len ≡ p.len

abbrev pub outgoing : Mac → (ifs : List Iface) (p : Packet) → IsReady ifs p → Frame
outgoing mac ifs p r = record { buf = addressed mac r.via p; len = p.len; iface = take 16 p.iface }

-- The frames that go out, each in front of those before it.
unfoldable pub flushed :
    Mac → (ifs : List Iface) (ps : List Packet) → All (IsReady ifs) ps → List Frame → List Frame
flushed mac ifs [] ready sent = sent
flushed mac ifs (p ∷ ps) ready sent = flushed mac ifs ps ready.1 (outgoing mac ifs p ready.0 ∷ sent)

abbrev with_sent : Instance → List Frame → Instance
with_sent sr frames = record sr { sent = frames }

flush_one-IsReady :
    (mac : Mac) (sr : Instance) (p : Packet) (r : IsReady sr.if_list p)
    → flush_one mac sr p ≡ done (with_sent sr (outgoing mac sr.if_list p r ∷ sr.sent))
unfolding flush_one sr_get_interface ◌>>=◌
flush_one-IsReady mac sr p r =
    let a : leb 12 p.buf.len ≡ true = le→leb 12 p.buf.len (omega (arith, r.long, r.whole)) in
    let b : leb 6 p.buf.len ≡ true = le→leb 6 p.buf.len (omega (arith, r.long, r.whole)) in
    let buf : Buf = record p.buf {
      at = patch (patch p.buf.at 6 6 (mac_byte r.via.addr)) 0 6 (mac_byte mac);
    } in
    rw (r.known, a, b)
      (sr_send_packet-sent sr buf p.len p.iface r.long (omega (arith, r.whole)) r.known refl)

flush-flushed :
    (mac : Mac) (sr : Instance) (ps : List Packet) (ready : All (IsReady sr.if_list) ps)
    → flush mac sr ps ≡ done (with_sent sr (flushed mac sr.if_list ps ready sr.sent))
unfolding flush flushed ◌>>=◌
flush-flushed mac sr [] ready = refl
flush-flushed mac sr (p ∷ ps) ready =
    rw (flush_one-IsReady mac sr p ready.0)
      (flush-flushed mac (with_sent sr (outgoing mac sr.if_list p ready.0 ∷ sr.sent)) ps ready.1)

destroy-insert :
    (c : ArpCache) (now : ℕ) (mac : Mac) (ip : ℕ) (r : Req)
    → IsCache c
    → find_request ip c.requests ≡ some r
    → sr_arpreq_destroy (sr_arpcache_insert now c mac ip).0 r ≡ (sr_arpcache_insert now c mac ip).0
unfolding sr_arpreq_destroy sr_arpcache_insert
destroy-insert c now mac ip r v found =
    rw (unlink-detach ip c.next_address c.requests r found v.queue.below)

module _ (sr : Instance) (env : Env) (f : Buf) (interface : List ℕ) (src tgt : Iface) where
  abbrev sha : Mac
  sha = mac_at f 22

  abbrev sip : ℕ
  sip = word_at f 28

  abbrev learned : ArpCache
  learned = (sr_arpcache_insert env.now sr.cache sha sip).0

  -- A reply for the address of the interface that it came in by.
  abbrev IsMine : Type 0
  IsMine =
      (42 ≤ f.len)
      × (sr_get_interface sr interface ≡ some src)
      × (ip_2_iface sr (word_at f 38) ≡ some tgt)
      × (src.name ≡ tgt.name)

  take_reply-release :
      IsMine
      → take_reply sr env f interface
        ≡ release sha (with_cache sr learned) (find_request sip sr.cache.requests)
  unfolding take_reply sr_arpcache_insert ◌>>=◌
  take_reply-release (long, from, to, same) =
      let a : leb 42 f.len ≡ true = le→leb 42 f.len long in
      let b : leb 28 f.len ≡ true = le→leb 28 f.len (omega arith) in
      let c : leb 32 f.len ≡ true = le→leb 32 f.len (omega arith) in
      rw (a, from, to, same, str_eq_refl tgt.name, b, c)

  -- A reply of at least 42 bytes for the address of the interface that it came in by, from an
  -- address that a request waits for: from a cache within its invariant, and with all waiting
  -- packets complete and their interfaces known, each packet goes out by its own interface, from that
  -- interface's address to the one in the reply. Afterwards a lookup of the sender's address finds the new mapping if
  -- the cache had a free slot and no valid entry for the address behind the first one; every other lookup, and the sender's otherwise,
  -- finds what it found before. Nothing waits for the sender's address any more, and what waits for others stays.
  pub take_reply-flushed :
      (r : Req) (ready : All (IsReady sr.if_list) r.packets)
      → IsCache sr.cache
      → IsMine
      → find_request sip sr.cache.requests ≡ some r
      → take_reply sr env f interface
          ≡ done
              (record sr { cache = learned; sent = flushed sha sr.if_list r.packets ready sr.sent })
        × ((j : ℕ)
            → sr_arpcache_lookup learned j ≡ (
                if (j == sip) && takes sip sr.cache.entries
                then some (entered env.now sha sip)
                else sr_arpcache_lookup sr.cache j))
        × ((j : ℕ)
            → waiting j learned.requests ≡ (if j == sip then [] else waiting j sr.cache.requests))
  unfolding release ◌>>=◌
  take_reply-flushed r ready v mine found = (
    take_reply-release mine
        ∙ rw (found, flush-flushed sha (with_cache sr learned) r.packets ready)
            (ap
              (λ c.
                done (with_sent (with_cache sr c) (flushed sha sr.if_list r.packets ready sr.sent)))
              (destroy-insert sr.cache env.now sha sip r v found)),
    lookup-insert env.now sha sip sr.cache,
    (insert-waiting sr.cache env.now sha sip v).1,
  )

  -- A reply of at least 42 bytes for the address of the interface that it came in by, from an
  -- address that no request waits for: the cache is that of the insert, and nothing is sent.
  pub take_reply-learned :
      IsMine
      → find_request sip sr.cache.requests ≡ none
      → take_reply sr env f interface ≡ done (with_cache sr learned)
  unfolding release
  take_reply-learned mine gone = take_reply-release mine ∙ rw gone
