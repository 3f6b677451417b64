-- ===== src/Router/Cache/Invariant.antt =====
-- What every operation under the cache's lock keeps, whichever thread makes it.
use cs.Base.{
  ◌∙◌, some, ℕ, suc, ◌≤◌, ◌<◌, ◌≡◌, refl, ◌≢◌, List, [], ◌∷◌, true, none, ◌==◌, arith, length,
  length-replicate, All, Bool-cases, inl, inr, Option-cases, ap, Ensures, returns, next, branch,
}
use cs.Bytes.{Buf, Mac, copy_of}
use cs.Router.State.{Packet, Entry, Req, ArpCache}
use cs.Router.Cache.{
  cache_size, zero_entry, sr_arpcache_init, find_request, with_request, push_packet,
  sr_arpcache_queuereq, detach, fill_slot, sr_arpcache_insert, unlink, sr_arpreq_destroy,
  expire_all,
}

-- No request is for `ip`.
abbrev pub Fresh : ℕ → List Req → Type 0
Fresh ip = All (λ r. r.ip ≢ ip)

abbrev pub Distinct : List Req → Type 0
Distinct [] = Unit {0}
Distinct (r ∷ rs) = Fresh r.ip rs × Distinct rs

-- The newest request comes first, so the addresses fall along the queue.
abbrev pub Below : ℕ → List Req → Type 0
Below n [] = Unit {0}
Below n (r ∷ rs) = (r.address < n) × Below r.address rs

abbrev pub Bounded : List Req → Type 0
Bounded = All (λ r. r.times_sent ≤ 5)

-- A queue with one request for an address, each at its own place in memory, and none sent more than
-- five times.
pub record IsQueue (next : ℕ) (rs : List Req) : Type 0 where
  pub distinct : Distinct rs
  pub below : Below next rs
  pub bounded : Bounded rs

pub record IsCache (c : ArpCache) : Type 0 where
  pub size : length c.entries ≡ cache_size
  pub queue : IsQueue c.next_address c.requests

Below-mono : (m n : ℕ) (rs : List Req) → m ≤ n → Below m rs → Below n rs
Below-mono m n [] h b = tt
Below-mono m n (r ∷ rs) h b = (omega arith, b.1)

pub IsQueue-tail : {n : ℕ} {r : Req} {rs : List Req} → IsQueue n (r ∷ rs) → IsQueue r.address rs
IsQueue-tail q = record { distinct = q.distinct.1; below = q.below.1; bounded = q.bounded.1 }

pub IsQueue-mono : (m n : ℕ) (rs : List Req) → m ≤ n → IsQueue m rs → IsQueue n rs
IsQueue-mono m n rs h q = record {
  distinct = q.distinct;
  below = Below-mono m n rs h q.below;
  bounded = q.bounded;
}

-- A request before a shorter queue of requests for other addresses.
pub IsQueue-cons :
    {n : ℕ} (r : Req) (rs : List Req)
    → r.address < n
    → r.times_sent ≤ 5
    → Fresh r.ip rs
    → IsQueue r.address rs
    → IsQueue n (r ∷ rs)
IsQueue-cons r rs below bound fresh q = record {
  distinct = (fresh, q.distinct);
  below = (below, q.below);
  bounded = (bound, q.bounded);
}

Fresh-detach : (ip j : ℕ) (rs : List Req) → Fresh j rs → Fresh j (detach ip rs)
unfolding detach
Fresh-detach ip j [] f = tt
Fresh-detach ip j (r ∷ rs) f = ground (arith, Fresh-detach ip j rs f.1)

detach-IsQueue : (ip n : ℕ) (rs : List Req) → IsQueue n rs → IsQueue n (detach ip rs)
unfolding detach
detach-IsQueue ip n [] q = q
detach-IsQueue ip n (r ∷ rs) q = elim (Bool-cases (r.ip == ip)) [
  | inl hit ↦ rw hit (IsQueue-mono r.address n rs (omega arith) (IsQueue-tail q))
  | inr miss ↦
      let rest = detach-IsQueue ip r.address rs (IsQueue-tail q) in
      rw miss (record {
        distinct = (Fresh-detach ip r.ip rs q.distinct.0, rest.distinct);
        below = (q.below.0, rest.below);
        bounded = (q.bounded.0, rest.bounded);
      })
]

Fresh-unlink : (a j : ℕ) (rs : List Req) → Fresh j rs → Fresh j (unlink a rs)
unfolding unlink
Fresh-unlink a j [] f = tt
Fresh-unlink a j (r ∷ rs) f = ground (arith, Fresh-unlink a j rs f.1)

pub unlink-above :
    (a : ℕ) (r : Req) (rs : List Req) → a < r.address → unlink a (r ∷ rs) ≡ r ∷ unlink a rs
unfolding unlink
unlink-above a r rs h = ground arith

pub unlink-here : (r : Req) (rs : List Req) → unlink r.address (r ∷ rs) ≡ rs
unfolding unlink
unlink-here r rs = ground arith

unlink-Below : (a : ℕ) (rs : List Req) → Below a rs → unlink a rs ≡ rs
unfolding unlink
unlink-Below a [] b = refl
unlink-Below a (r ∷ rs) b =
    ground (arith, unlink-Below a rs (Below-mono r.address a rs (omega arith) b.1))

address-lt :
    (ip n : ℕ) (rs : List Req) (r : Req) → find_request ip rs ≡ some r → Below n rs → r.address < n
unfolding find_request
address-lt ip n [] r e b = cc
address-lt ip n (s ∷ rs) r e b = ground (arith, address-lt ip s.address rs r)

-- To destroy a request that has been taken off the queue removes nothing.
pub unlink-detach :
    (ip n : ℕ) (rs : List Req) (r : Req)
    → find_request ip rs ≡ some r
    → Below n rs
    → unlink r.address (detach ip rs) ≡ detach ip rs
unfolding find_request detach
unlink-detach ip n [] r e b = cc
unlink-detach ip n (s ∷ rs) r e b = elim (Bool-cases (s.ip == ip)) [
  | inl hit ↦ let same : s ≡ r = ground arith in rw (hit, ← same) (unlink-Below s.address rs b.1)
  | inr miss ↦
      let later : find_request ip rs ≡ some r = ground arith in
      rw miss (
        unlink-above r.address s (detach ip rs) (address-lt ip s.address rs r later b.1)
        ∙ ap (λ l. s ∷ l) (unlink-detach ip s.address rs r later b.1))
]

pub unlink-IsQueue : (a n : ℕ) (rs : List Req) → IsQueue n rs → IsQueue n (unlink a rs)
unfolding unlink
unlink-IsQueue a n [] q = q
unlink-IsQueue a n (r ∷ rs) q = elim (Bool-cases (r.address == a)) [
  | inl hit ↦ rw hit (IsQueue-mono r.address n rs (omega arith) (IsQueue-tail q))
  | inr miss ↦
      let rest = unlink-IsQueue a r.address rs (IsQueue-tail q) in
      rw miss (record {
        distinct = (Fresh-unlink a r.ip rs q.distinct.0, rest.distinct);
        below = (q.below.0, rest.below);
        bounded = (q.bounded.0, rest.bounded);
      })
]

Fresh-push_packet :
    (ip j : ℕ) (p : Packet) (rs : List Req) → Fresh j rs → Fresh j (push_packet ip p rs)
unfolding push_packet
Fresh-push_packet ip j p [] f = tt
Fresh-push_packet ip j p (r ∷ rs) f = ground (arith, Fresh-push_packet ip j p rs f.1)

push_packet-IsQueue :
    (ip n : ℕ) (p : Packet) (rs : List Req) → IsQueue n rs → IsQueue n (push_packet ip p rs)
unfolding push_packet
push_packet-IsQueue ip n p [] q = q
push_packet-IsQueue ip n p (r ∷ rs) q = elim (Bool-cases (r.ip == ip)) [
  | inl hit ↦ rw hit (record { distinct = q.distinct; below = q.below; bounded = q.bounded })
  | inr miss ↦
      let rest = push_packet-IsQueue ip r.address p rs (IsQueue-tail q) in
      rw miss (record {
        distinct = (Fresh-push_packet ip r.ip p rs q.distinct.0, rest.distinct);
        below = (q.below.0, rest.below);
        bounded = (q.bounded.0, rest.bounded);
      })
]

find_request-Fresh : (ip : ℕ) (rs : List Req) → find_request ip rs ≡ none → Fresh ip rs
unfolding find_request
find_request-Fresh ip [] e = tt
find_request-Fresh ip (r ∷ rs) e = elim (Bool-cases (r.ip == ip)) [
  | inl hit ↦ absurd (ground arith)
  | inr miss ↦ ((λ h. ground arith), find_request-Fresh ip rs (ground arith))
]

with_request-IsCache : (c : ArpCache) (ip : ℕ) → IsCache c → IsCache (with_request c ip)
unfolding with_request
with_request-IsCache c ip v = elim (Option-cases (find_request ip c.requests)) [
  | inl new ↦
      rw (new, with_request)
        (record {
          size = v.size;
          queue = record {
            distinct = (find_request-Fresh ip c.requests new, v.queue.distinct);
            below = (omega arith, v.queue.below);
            bounded = (omega arith, v.queue.bounded);
          };
        })
  | inr (r, old) ↦ rw (old, with_request) v
]

push-IsCache :
    (c : ArpCache) (ip : ℕ) (p : Packet)
    → IsCache c
    → IsCache (record c { requests = push_packet ip p c.requests })
push-IsCache c ip p v = record {
  size = v.size;
  queue = push_packet-IsQueue ip c.next_address p c.requests v.queue;
}

pub sr_arpcache_queuereq-IsCache :
    (c : ArpCache) (ip : ℕ) (b : Buf) (len : ℕ) (name : List ℕ)
    → IsCache c
    → Ensures IsCache (sr_arpcache_queuereq c ip b len name)
unfolding sr_arpcache_queuereq
sr_arpcache_queuereq-IsCache c ip b len name v =
    let there = with_request-IsCache c ip v in
    branch (len == 0) (returns there)
      (next (copy_of b len) λ buf. returns (push-IsCache (with_request c ip) ip _ there))

length-fill_slot : (e : Entry) (es : List Entry) → length (fill_slot e es) ≡ length es
unfolding fill_slot
length-fill_slot e [] = refl
length-fill_slot e (x ∷ xs) = ground (arith, length-fill_slot e xs)

abbrev entered : ℕ → Mac → ℕ → Entry
entered now mac ip = record { mac = mac; ip = ip; added = now; valid = true }

pub sr_arpcache_insert-IsCache :
    (c : ArpCache) (now : ℕ) (mac : Mac) (ip : ℕ)
    → IsCache c
    → IsCache (sr_arpcache_insert now c mac ip).0
unfolding sr_arpcache_insert
sr_arpcache_insert-IsCache c now mac ip v = record {
  size = omega (arith, v.size, length-fill_slot (entered now mac ip) c.entries);
  queue = detach-IsQueue ip c.next_address c.requests v.queue;
}

pub sr_arpreq_destroy-IsCache :
    (c : ArpCache) (r : Req) → IsCache c → IsCache (sr_arpreq_destroy c r)
unfolding sr_arpreq_destroy
sr_arpreq_destroy-IsCache c r v = record {
  size = v.size;
  queue = unlink-IsQueue r.address c.next_address c.requests v.queue;
}

pub length-expire_all : (now : ℕ) (es : List Entry) → length (expire_all now es) ≡ length es
unfolding expire_all
length-expire_all now [] = refl
length-expire_all now (e ∷ es) = ap suc (length-expire_all now es)

pub sr_arpcache_init-IsCache : (start : ℕ) → IsCache (sr_arpcache_init start)
unfolding sr_arpcache_init
sr_arpcache_init-IsCache start = record {
  size = length-replicate cache_size zero_entry;
  queue = record { distinct = tt; below = tt; bounded = tt };
}
