-- ===== src/Router/Cache.antt =====
-- The ARP cache and the queue of requests: sr_arpcache.c without the sweep of the requests. Each
-- function holds the cache's lock from its first statement to its last, so it is one step.
pub mod Invariant
pub mod Mapping
pub mod Queue
use cs.Base.{
  ℕ, ◌+◌, List, [], ◌∷◌, true, false, ◌&&◌, Option, none, some, ◌==◌, ltb, if◌then◌else◌, take,
  replicate, Run, done, ◌>>=◌,
}
use cs.Bytes.{Buf, Mac, copy_of}
use cs.Router.State.{Packet, Entry, Req, ArpCache}
use cs.Router.Interfaces.{name_len}

abbrev pub cache_size : ℕ
cache_size = 100

abbrev pub cache_timeout : ℕ
cache_timeout = 15

abbrev pub no_mac : Mac
no_mac = record { b0 = 0; b1 = 0; b2 = 0; b3 = 0; b4 = 0; b5 = 0 }

abbrev pub zero_entry : Entry
zero_entry = record { mac = no_mac; ip = 0; added = 0; valid = false }

-- `next_address` is where the allocator starts.
unfoldable pub sr_arpcache_init : ℕ → ArpCache
sr_arpcache_init start = record {
  entries = replicate cache_size zero_entry;
  requests = [];
  next_address = start;
}

-- The loop runs on after a hit, so the last one counts.
unfoldable pub lookup_loop : ℕ → List Entry → Option Entry → Option Entry
lookup_loop ip [] entry = entry
lookup_loop ip (e ∷ es) entry = lookup_loop ip es (if e.valid && e.ip == ip then some e else entry)

unfoldable pub sr_arpcache_lookup : ArpCache → ℕ → Option Entry
unfolding lookup_loop
sr_arpcache_lookup cache ip = lookup_loop ip cache.entries none

unfoldable pub find_request : ℕ → List Req → Option Req
find_request ip [] = none
find_request ip (r ∷ rs) = if r.ip == ip then some r else find_request ip rs

abbrev pub new_request : ℕ → ℕ → Req
new_request address ip = record { address = address; ip = ip; times_sent = 0; packets = [] }

-- `req` after the search: the request is there now, at the front if it is new.
pub with_request : ArpCache → ℕ → ArpCache
with_request cache ip = elim (find_request ip cache.requests) [
  | some r ↦ cache
  | none ↦ record cache {
    requests = new_request cache.next_address ip ∷ cache.requests;
    next_address = cache.next_address + 1;
  }
]

-- The packet goes to the front of the list of the first request for `ip`.
pub push_packet : ℕ → Packet → List Req → List Req
push_packet ip p [] = []
push_packet ip p (r ∷ rs) =
    if r.ip == ip then record r { packets = p ∷ r.packets } ∷ rs else r ∷ push_packet ip p rs

unfoldable pub sr_arpcache_queuereq : ArpCache → ℕ → Buf → ℕ → List ℕ → Run ArpCache
unfolding find_request with_request push_packet
sr_arpcache_queuereq cache ip packet len iface =
    let c = with_request cache ip in
    if len == 0 then done c else do
      buf ← copy_of packet len
      let p : Packet = record { buf = buf; len = len; iface = take name_len iface }
      done (record c { requests = push_packet ip p c.requests })

pub detach : ℕ → List Req → List Req
detach ip [] = []
detach ip (r ∷ rs) = if r.ip == ip then rs else r ∷ detach ip rs

-- The first invalid slot takes the entry; in a full table it is lost.
pub fill_slot : Entry → List Entry → List Entry
fill_slot e [] = []
fill_slot e (x ∷ xs) = if x.valid then x ∷ fill_slot e xs else e ∷ xs

-- The mapping is entered and the waiting request taken off the queue and returned.
unfoldable pub sr_arpcache_insert : ℕ → ArpCache → Mac → ℕ → ArpCache × Option Req
unfolding find_request detach fill_slot
sr_arpcache_insert now cache mac ip = (
  record cache {
    requests = detach ip cache.requests;
    entries = fill_slot (record { mac = mac; ip = ip; added = now; valid = true }) cache.entries;
  },
  find_request ip cache.requests,
)

pub unlink : ℕ → List Req → List Req
unlink address [] = []
unlink address (r ∷ rs) = if r.address == address then rs else r ∷ unlink address rs

unfoldable pub sr_arpreq_destroy : ArpCache → Req → ArpCache
unfolding unlink
sr_arpreq_destroy cache req = record cache { requests = unlink req.address cache.requests }

abbrev pub expire : ℕ → Entry → Entry
expire now e =
    if e.valid && ltb (e.added + cache_timeout) now then record e { valid = false } else e

unfoldable pub expire_all : ℕ → List Entry → List Entry
expire_all now [] = []
expire_all now (e ∷ es) = expire now e ∷ expire_all now es
