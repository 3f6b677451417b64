-- ===== src/Router/Run.antt =====
-- The router as a state machine: frames come in, and the timeout thread makes its rounds, in any
-- order. The thread and `sr_handlepacket` share the ARP cache, whose operations are atomic under the
-- lock; between two of them in one handler the thread may run, which the steps of `Locked` allow.
use cs.Base.{ℕ, ◌≡◌, List, [], done, Ensures-done}
use cs.Bytes.{Buf, Mac}
use cs.Router.State.{Req, ArpCache, Instance, Env}
use cs.Router.Cache.{sr_arpcache_init, sr_arpcache_queuereq, sr_arpcache_insert, sr_arpreq_destroy}
use cs.Router.Cache.Invariant.{
  IsCache, sr_arpcache_init-IsCache, sr_arpcache_queuereq-IsCache, sr_arpcache_insert-IsCache,
  sr_arpreq_destroy-IsCache,
}
use cs.Router.Send.Laws.{IsStep, IsStep-refl, IsStep-trans}
use cs.Router.Handle.{sr_handlepacket}
use cs.Router.Safety.{sr_handlepacket-IsStep}
use cs.Router.Sweep.{sr_arpcache_timeout}
use cs.Router.Sweep.Limits.{sr_arpcache_timeout-IsStep}

pub data Reach (start : Instance) : Instance → Type 0 where
  here : Reach start start
  receive :
      {sr sr' : Instance} (env : Env) (packet : Buf) (interface : List ℕ)
      → Reach start sr
      → sr_handlepacket sr env packet interface ≡ done sr'
      → Reach start sr'
  tick :
      {sr sr' : Instance} (env : Env)
      → Reach start sr
      → sr_arpcache_timeout env sr ≡ done sr'
      → Reach start sr'

Reach-IsStep : {start sr : Instance} → IsCache start.cache → Reach start sr → IsStep start sr
Reach-IsStep {start} v here = IsStep-refl start
Reach-IsStep v (receive {sr} env packet interface r e) =
    IsStep-trans (Reach-IsStep v r)
      (Ensures-done (sr_handlepacket-IsStep sr env packet interface) e)
Reach-IsStep v (tick {sr} env r e) =
    let s = Reach-IsStep v r in
    IsStep-trans s (Ensures-done (sr_arpcache_timeout-IsStep env sr (s.keeps v)) e)

abbrev pub booted : Instance → ℕ → Instance
booted sr start = record sr { cache = sr_arpcache_init start; sent = [] }

-- From a freshly initialised router, whatever frames come in and however many rounds the thread makes
-- between two of them, but none while a frame is handled: in every state reached, the frames sent are all genuine, the cache has its 100 slots, and the queue has at most one
-- request for an address, none sent more than five times.
pub booted-IsStep :
    (sr sr' : Instance) (start : ℕ)
    → Reach (booted sr start) sr'
    → IsStep (booted sr start) sr' × IsCache sr'.cache
booted-IsStep sr sr' start r =
    let v = sr_arpcache_init-IsCache start in let s = Reach-IsStep v r in (s, s.keeps v)

-- One operation of either thread on the cache, under the lock.
pub data Locked (c : ArpCache) : ArpCache → Type 0 where
  queues :
      {d : ArpCache} (ip : ℕ) (b : Buf) (len : ℕ) (name : List ℕ)
      → sr_arpcache_queuereq c ip b len name ≡ done d
      → Locked c d
  inserts : (now : ℕ) (mac : Mac) (ip : ℕ) → Locked c (sr_arpcache_insert now c mac ip).0
  destroys : (r : Req) → Locked c (sr_arpreq_destroy c r)
  rounds :
      (sr : Instance) {sr' : Instance} (env : Env)
      → sr.cache ≡ c
      → sr_arpcache_timeout env sr ≡ done sr'
      → Locked c sr'.cache

pub data Interleaved (start : ArpCache) : ArpCache → Type 0 where
  start_here : Interleaved start start
  then_locked : {c d : ArpCache} → Interleaved start c → Locked c d → Interleaved start d

Locked-IsCache : {c d : ArpCache} → Locked c d → IsCache c → IsCache d
Locked-IsCache {c} (queues ip b len name e) v =
    Ensures-done (sr_arpcache_queuereq-IsCache c ip b len name v) e
Locked-IsCache {c} (inserts now mac ip) v = sr_arpcache_insert-IsCache c now mac ip v
Locked-IsCache {c} (destroys r) v = sr_arpreq_destroy-IsCache c r v
Locked-IsCache (rounds sr env same e) v =
    let here : IsCache sr.cache = rw same v in
    (Ensures-done (sr_arpcache_timeout-IsStep env sr here) e).keeps here

-- In whatever order the two threads queue packets, insert mappings, destroy requests and make the rounds of the timeout, each under the
-- lock and also while a frame is handled, the cache of a freshly initialised router stays within its invariant: 100 slots, and at
-- most one request for an address, none sent more than five times.
pub Interleaved-IsCache :
    (start : ℕ) {c : ArpCache} → Interleaved (sr_arpcache_init start) c → IsCache c
Interleaved-IsCache start start_here = sr_arpcache_init-IsCache start
Interleaved-IsCache start (then_locked before step) =
    Locked-IsCache step (Interleaved-IsCache start before)
