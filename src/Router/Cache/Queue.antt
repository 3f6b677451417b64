-- ===== src/Router/Cache/Queue.antt =====
-- The queue of requests: what waits for an address after `sr_arpcache_queuereq` and after
-- `sr_arpcache_insert`.
use cs.Base.{
  ◌>>=◌, ℕ, ◌≤◌, ◌≡◌, refl, List, [], ◌∷◌, Option, none, some, ◌==◌, if◌then◌else◌, arith,
  Option-cases, inl, inr, take, done, ◌<◌,
}
use cs.Bytes.{Buf, Mac}
use cs.Router.State.{Packet, Req, ArpCache}
use cs.Router.Interfaces.{name_len}
use cs.Router.Cache.{
  find_request, new_request, with_request, push_packet, sr_arpcache_queuereq, detach,
  sr_arpcache_insert,
}
use cs.Router.Cache.Invariant.{Fresh, Distinct, IsCache}

-- The packets that wait for `ip`, the newest first.
abbrev pub waiting_of : Option Req → List Packet
waiting_of none = []
waiting_of (some r) = r.packets

pub waiting : ℕ → List Req → List Packet
unfolding find_request
waiting ip rs = waiting_of (find_request ip rs)

waiting-push_packet :
    (ip j : ℕ) (p : Packet) (rs : List Req) (r : Req)
    → find_request ip rs ≡ some r
    → waiting j (push_packet ip p rs) ≡ (if j == ip then p ∷ waiting j rs else waiting j rs)
unfolding waiting push_packet
waiting-push_packet ip j p [] r e = cc
waiting-push_packet ip j p (s ∷ rs) r e = ground (arith, waiting-push_packet ip j p rs r)

-- After the search there is a request for `ip`, and what waits is what waited.
with_request-found :
    (c : ArpCache) (ip : ℕ) → (r : Req) × (find_request ip (with_request c ip).requests ≡ some r)
unfolding with_request find_request
with_request-found c ip = elim (Option-cases (find_request ip c.requests)) [
  | inl new ↦ (new_request c.next_address ip, ground arith)
  | inr (r, old) ↦ (r, ground arith)
]

waiting-with_request :
    (c : ArpCache) (ip j : ℕ) → waiting j (with_request c ip).requests ≡ waiting j c.requests
unfolding with_request waiting find_request
waiting-with_request c ip j = ground arith

with_request-entries : (c : ArpCache) (ip : ℕ) → (with_request c ip).entries ≡ c.entries
unfolding with_request
with_request-entries c ip = ground arith

abbrev pub packet_of : Buf → ℕ → List ℕ → Packet
packet_of b len name = record {
  buf = record { len = len; at = b.at };
  len = len;
  iface = take name_len name;
}

-- A packet in range with a length is queued in front of those that wait for its address, and
-- nothing else changes: not what waits for other addresses, and no entry of the cache.
pub queuereq-waiting :
    (c : ArpCache) (ip : ℕ) (b : Buf) (len : ℕ) (name : List ℕ)
    → 0 < len
    → len ≤ b.len
    → (d : ArpCache) × (sr_arpcache_queuereq c ip b len name ≡ done d)
      × (d.entries ≡ c.entries)
      × ((j : ℕ)
          → waiting j d.requests ≡ (
              if j == ip
              then packet_of b len name ∷ waiting j c.requests
              else waiting j c.requests))
unfolding sr_arpcache_queuereq ◌>>=◌
queuereq-waiting c ip b len name pos inside =
    let w = with_request c ip in
    let (r, found) = with_request-found c ip in
    let p = packet_of b len name in
    (
      record w { requests = push_packet ip p w.requests },
      ground arith,
      with_request-entries c ip,
      λ j. ground (arith, waiting-push_packet ip j p w.requests r, waiting-with_request c ip j),
    )

waiting-Fresh : (ip : ℕ) (rs : List Req) → Fresh ip rs → waiting ip rs ≡ []
unfolding waiting
waiting-Fresh ip [] f = refl
waiting-Fresh ip (r ∷ rs) f = ground (arith, waiting-Fresh ip rs f.1)

waiting-detach :
    (ip j : ℕ) (rs : List Req)
    → Distinct rs
    → waiting j (detach ip rs) ≡ (if j == ip then [] else waiting j rs)
unfolding waiting detach
waiting-detach ip j [] d = ground arith
waiting-detach ip j (r ∷ rs) d =
    ground (arith, waiting-detach ip j rs d.1, waiting-Fresh r.ip rs d.0)

-- In a cache that keeps its invariant, `sr_arpcache_insert` hands over the request with all that
-- waited for the address, and nothing waits for it afterwards; what waits for others stays.
pub insert-waiting :
    (c : ArpCache) (now : ℕ) (mac : Mac) (ip : ℕ)
    → IsCache c
    → let (d, req) = sr_arpcache_insert now c mac ip in
      (waiting_of req ≡ waiting ip c.requests)
      × ((j : ℕ) → waiting j d.requests ≡ (if j == ip then [] else waiting j c.requests))
unfolding sr_arpcache_insert waiting
insert-waiting c now mac ip v = (refl, λ j. waiting-detach ip j c.requests v.queue.distinct)
