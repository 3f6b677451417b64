-- ===== src/Router/Sweep/Limits.antt =====
-- The sweep of the requests, and a round of the timeout thread, as a step.
use cs.Base.{
  ℕ, ◌<◌, ◌≡◌, refl, ◌∙◌, List, [], ◌∷◌, Option, none, some, leb, arith, Run, Ensures, returns,
  next, bind, Bool-cases, inl, inr,
}
use cs.Bytes.{Buf, fresh_buf}
use cs.Router.State.{Iface, Packet, Req, Instance, Env}
use cs.Router.Routes.{target_ip_2_iface}
use cs.Router.Cache.{unlink, sr_arpreq_destroy, expire_all}
use cs.Router.Cache.Invariant.{
  Fresh, Below, IsQueue, IsCache, length-expire_all, IsQueue-tail, IsQueue-mono, IsQueue-cons,
  unlink-above, unlink-here,
}
use cs.Router.Send.Laws.{
  IsStep, IsStep-trans, with_cache-IsStep, after, IsSend, IsSend-refl, IsSend-trans, IsSend-after,
  sr_send_packet-IsSend,
}
use cs.Router.Arp.{with_cache}
use cs.Router.Sweep.{
  host_unreachable, reject_all, Swept, swept, counted, with_counted, give_up, send_again, sweep_by,
  sweep_loop, finish, sr_arpcache_sweepreqs, sr_arpcache_timeout,
}

host_unreachable-IsSend :
    (sr : Instance) (u : Buf) (p : Packet)
    → Ensures (λ out. IsSend sr out.1) (host_unreachable sr u p)
unfolding host_unreachable
host_unreachable-IsSend sr u p = next _ λ a. next _ λ src. next _ λ b. next _ λ via. next _ λ c.
    next _ λ d. next _ λ e. next _ λ f. next _ λ g. next _ λ ip_sum. next _ λ h. next _ λ i.
      next _ λ j. next _ λ k. next _ λ l. next _ λ m. next _ λ n. next _ λ icmp_sum. next _ λ o.
        next _ λ q.
          next _
            λ r. next _ λ s. bind (sr_send_packet-IsSend sr s 74 via.name) λ sr' step. returns step

reject_all-IsSend :
    (sr : Instance) (u : Buf) (ps : List Packet) → Ensures (IsSend sr) (reject_all sr u ps)
unfolding reject_all
reject_all-IsSend sr u [] = returns (IsSend-refl sr)
reject_all-IsSend sr u (p ∷ ps) =
    bind {f = λ (u', sr'). reject_all sr' u' ps} (host_unreachable-IsSend sr u p)
      λ out s. IsSend-after s (reject_all-IsSend out.1 out.0 ps)

-- The queue when the dead request is gone.
abbrev left_over : List Req → Option Req → List Req
left_over rs none = rs
left_over rs (some d) = unlink d.address rs

abbrev DeadBelow : ℕ → Option Req → Type 0
DeadBelow n none = Unit {0}
DeadBelow n (some d) = d.address < n

left_over-cons :
    (r : Req) (rs : List Req) (o : Option Req)
    → DeadBelow r.address o
    → left_over (r ∷ rs) o ≡ r ∷ left_over rs o
left_over-cons r rs none h = refl
left_over-cons r rs (some d) h = unlink-above d.address r rs h

DeadBelow-mono : (m n : ℕ) (o : Option Req) → m < n → DeadBelow m o → DeadBelow n o
DeadBelow-mono m n none h b = tt
DeadBelow-mono m n (some d) h b = omega arith

-- What a walk makes of the requests `rs`, whose addresses lie below `n`.
record IsSwept (sr : Instance) (n : ℕ) (rs : List Req) (w : Swept) : Type 0 where
  sends : IsSend sr w.sr
  queue : IsQueue n rs → IsQueue n (left_over w.requests w.dead)
  fresh : (j : ℕ) → Fresh j rs → Fresh j (left_over w.requests w.dead)
  dead : Below n rs → DeadBelow n w.dead

IsSwept-none : (sr : Instance) (n : ℕ) (rs : List Req) → IsSwept sr n rs (swept sr rs none)
IsSwept-none sr n rs = record {
  sends = IsSend-refl sr;
  queue = λ q. q;
  fresh = λ j f. f;
  dead = λ b. tt;
}

module _ (sr : Instance) (n : ℕ) (r : Req) (rs : List Req) where
  give_up-IsSwept : (env : Env) → Ensures (IsSwept sr n (r ∷ rs)) (give_up env sr r rs)
  unfolding give_up
  give_up-IsSwept env = bind (reject_all-IsSend sr (fresh_buf 74 env.junk) r.packets) λ sr' s.
      returns (record {
        sends = s;
        queue = λ q.
            rw (unlink-here (counted r) rs)
              (IsQueue-mono r.address n rs (omega (arith, q.below.0)) (IsQueue-tail q));
        fresh = λ j f. rw (unlink-here (counted r) rs) f.1;
        dead = λ b. b.0;
      })

  with_counted-IsSwept :
      (sr' : Instance) (w : Swept)
      → r.times_sent < 5
      → IsSend sr sr'
      → Below n (r ∷ rs)
      → IsSwept sr' r.address rs w
      → IsSwept sr n (r ∷ rs) (with_counted r w)
  with_counted-IsSwept sr' w few s b v =
      let e = left_over-cons (counted r) w.requests w.dead (v.dead b.1) in
      record {
        sends = IsSend-trans s v.sends;
        queue = λ q. rw e (
            IsQueue-cons (counted r) _ q.below.0 (omega arith) (v.fresh r.ip q.distinct.0)
              (v.queue (IsQueue-tail q)));
        fresh = λ j f. rw e (f.0, v.fresh j f.1);
        dead = λ b'. DeadBelow-mono r.address n w.dead b.0 (v.dead b.1);
      }

  send_again-IsSwept :
      (arp : Buf) (via : Iface) (walk : Instance → Run Swept)
      → r.times_sent < 5
      → Below n (r ∷ rs)
      → ((sr' : Instance) → Ensures (IsSwept sr' r.address rs) (walk sr'))
      → Ensures (IsSwept sr n (r ∷ rs)) (send_again sr arp via r walk)
  unfolding send_again
  send_again-IsSwept arp via walk few b spec =
      bind (sr_send_packet-IsSend sr arp 42 via.name)
        λ sr' s. bind (spec sr') λ w v. returns (with_counted-IsSwept sr' w few s b v)

  sweep_by-IsSwept :
      (env : Env) (walk : Instance → Run Swept) (o : Option Iface)
      → Below n (r ∷ rs)
      → ((sr' : Instance) → Ensures (IsSwept sr' r.address rs) (walk sr'))
      → Ensures (IsSwept sr n (r ∷ rs)) (sweep_by env sr r rs walk o)
  unfolding sweep_by
  sweep_by-IsSwept env walk none b spec = returns (IsSwept-none sr n (r ∷ rs))
  sweep_by-IsSwept env walk (some via) b spec = next _ λ arp.
      elim (Bool-cases (leb 5 r.times_sent)) [
        | inl late ↦ rw late (give_up-IsSwept env)
        | inr early ↦ rw early (send_again-IsSwept arp via walk (ground arith) b spec)
      ]

sweep_loop-IsSwept :
    (env : Env) (sr : Instance) (n : ℕ) (rs : List Req)
    → Below n rs
    → Ensures (IsSwept sr n rs) (sweep_loop env sr rs)
unfolding sweep_loop
sweep_loop-IsSwept env sr n [] b = returns (IsSwept-none sr n [])
sweep_loop-IsSwept env sr n (r ∷ rs) b =
    sweep_by-IsSwept sr n r rs env (λ sr'. sweep_loop env sr' rs) (target_ip_2_iface sr r.ip) b
      λ sr'. sweep_loop-IsSwept env sr' r.address rs b.1

finish-cache :
    (w : Swept)
    → finish w ≡ with_cache w.sr (record w.sr.cache { requests = left_over w.requests w.dead })
unfolding sr_arpreq_destroy
finish-cache w = ground arith

module _ (env : Env) (sr : Instance) where
  finish-IsStep :
      (w : Swept)
      → IsCache sr.cache
      → IsSwept sr sr.cache.next_address sr.cache.requests w
      → IsStep sr (finish w)
  finish-IsStep w v swept = rw (finish-cache w) (
      IsStep-trans swept.sends.step (
        with_cache-IsStep w.sr (record w.sr.cache { requests = left_over w.requests w.dead })
          λ _. record {
            size = rw swept.sends.same_cache v.size;
            queue = rw swept.sends.same_cache (swept.queue v.queue);
          }))

  -- The sweep of the requests keeps the queue in order, with no request sent more than five times,
  -- and sends genuine frames only.
  sr_arpcache_sweepreqs-IsStep :
      IsCache sr.cache → Ensures (IsStep sr) (sr_arpcache_sweepreqs env sr)
  unfolding sr_arpcache_sweepreqs
  sr_arpcache_sweepreqs-IsStep v =
      bind (sweep_loop-IsSwept env sr sr.cache.next_address sr.cache.requests v.queue.below)
        λ w swept. returns (finish-IsStep w v swept)

-- So does a round of the timeout thread: from a cache within its invariant, if the round returns, it
-- has sent genuine frames only and the cache is within its invariant.
pub sr_arpcache_timeout-IsStep :
    (env : Env) (sr : Instance)
    → IsCache sr.cache
    → Ensures (IsStep sr) (sr_arpcache_timeout env sr)
unfolding sr_arpcache_timeout
sr_arpcache_timeout-IsStep env sr v =
    let aged = record sr.cache { entries = expire_all env.now sr.cache.entries } in
    let kept : IsCache aged = record {
      size = length-expire_all env.now sr.cache.entries ∙ v.size;
      queue = v.queue;
    } in
    after (with_cache-IsStep sr aged (λ _. kept))
      (sr_arpcache_sweepreqs-IsStep env (with_cache sr aged) kept)
