-- ===== src/Router/Sweep/Fate.antt =====
-- What becomes of a request in one sweep: it is sent again, or given up.
use cs.Base.{
  ℕ, ◌≤◌, ◌<◌, ◌≡◌, refl, ◌∙◌, ap, List, [], ◌∷◌, ◌++◌, take, All, All-mono, true, ◌^◌, some, none,
  false, leb, arith, Run, done, fault, ◌>>=◌, next-fault, le→leb, lt→leb,
}
use mathlib.Core.List.{map}
use cs.Bytes.{Buf, mac_at, half_at, word_at, patch, byte_of, mac_byte, htons, fresh_buf}
use cs.Checksum.Header.{word_round}
use cs.Router.State.{Iface, Packet, Req, Frame, Instance, Env}
use cs.Router.Interfaces.{sr_get_interface}
use cs.Router.Routes.{target_ip_2_iface}
use cs.Router.Send.{with_frame}
use cs.Router.Send.Laws.{sr_send_packet-sent}
use cs.Router.Cache.{no_mac}
use cs.Router.Sweep.{
  broadcast, arp_request_frame, host_unreachable, reject_all, Swept, counted, with_counted, finish,
  give_up, send_again, sweep_by, sweep_loop, sr_arpcache_sweepreqs,
}

fault_first : {A B : Type 0} (f : A → Run B) → (fault >>= f) ≡ fault
unfolding ◌>>=◌
fault_first f = refl

-- No message that the host is unreachable is ever finished.
host_unreachable_lem : (sr : Instance) (u : Buf) (p : Packet) → host_unreachable sr u p ≡ fault
unfolding host_unreachable
host_unreachable_lem sr u p = next-fault _ λ a. next-fault _ λ src. next-fault _ λ b.
    next-fault _ λ via. next-fault _ λ c. next-fault _ λ d. next-fault _ λ e. next-fault _ λ f.
      next-fault _ λ g. next-fault _ λ ip_sum. next-fault _ λ h.
        next-fault _
          λ i. next-fault _ λ j. next-fault _ λ k. next-fault _ λ l. next-fault _ λ m. fault_first _

-- The request for `ip` that `via` sends to all.
pub record IsArpRequest (via : Iface) (ip : ℕ) (g : Buf) : Type 0 where
  pub length : g.len ≡ 42
  pub to_all : mac_at g 0 ≡ broadcast
  pub from_me : mac_at g 6 ≡ via.addr
  pub ether_type : half_at g 12 ≡ htons 0x0806
  pub hardware : half_at g 14 ≡ htons 1
  pub protocol : half_at g 16 ≡ htons 0x0800
  pub opcode : half_at g 20 ≡ htons 1
  pub sender_mac : mac_at g 22 ≡ via.addr
  pub sender_ip : word_at g 28 ≡ via.ip
  pub target_mac : mac_at g 32 ≡ no_mac
  pub target_ip : word_at g 38 ≡ ip

abbrev asking : Iface → ℕ → Buf
asking via ip =
    let a = patch (patch (λ i. 0) 6 6 (mac_byte via.addr)) 0 6 (mac_byte broadcast) in
    let b = patch (patch a 12 2 (byte_of (htons 0x0806))) 14 2 (byte_of (htons 1)) in
    let c = patch (patch b 16 2 (byte_of (htons 0x0800))) 18 1 (byte_of 6) in
    let d = patch (patch c 19 1 (byte_of 4)) 20 2 (byte_of (htons 1)) in
    let e = patch (patch d 22 6 (mac_byte via.addr)) 28 4 (byte_of via.ip) in
    record { len = 42; at = patch (patch e 32 6 (mac_byte no_mac)) 38 4 (byte_of ip) }

asking-IsArpRequest :
    (via : Iface) (ip : ℕ) → via.ip < 2 ^ 32 → ip < 2 ^ 32 → IsArpRequest via ip (asking via ip)
asking-IsArpRequest via ip h k = record {
  length = refl;
  to_all = refl;
  from_me = refl;
  ether_type = refl;
  hardware = refl;
  protocol = refl;
  opcode = refl;
  sender_mac = refl;
  sender_ip = word_round via.ip h;
  target_mac = refl;
  target_ip = word_round ip k;
}

-- A request that a sweep sends again: it was sent less than five times, and its address has a route
-- by an interface.
pub record IsDue (sr : Instance) (r : Req) : Type 0 where
  pub few : r.times_sent < 5
  pub via : Iface
  pub to : target_ip_2_iface sr r.ip ≡ some via
  pub named : sr_get_interface sr via.name ≡ some via
  pub via_word : via.ip < 2 ^ 32
  pub ip_word : r.ip < 2 ^ 32

-- From the frames `old` to `new` each request was asked for once, in the order of the queue.
abbrev pub Asked : Instance → List Req → List Frame → List Frame → Type 0
Asked sr [] old new = new ≡ old
Asked sr (r ∷ rs) old new =
    (via : Iface) × (g : Buf) × (target_ip_2_iface sr r.ip ≡ some via)
    × IsArpRequest via r.ip g
    × Asked sr rs (record { buf = g; len = 42; iface = take 16 via.name } ∷ old) new

record Resent (sr : Instance) (rs : List Req) (w : Swept) : Type 0 where
  requests : w.requests ≡ map counted rs
  dead : w.dead ≡ none
  asked : Asked sr rs sr.sent w.sr.sent
  same : w.sr.cache ≡ sr.cache

-- One request of the queue.
sweep_loop-due :
    (env : Env) (sr : Instance) (r : Req) (rs : List Req) (d : IsDue sr r)
    → sweep_loop env sr (r ∷ rs) ≡ (
        sweep_loop env (with_frame sr (asking d.via r.ip) 42 d.via.name) rs >>= λ w.
        done (with_counted r w))
unfolding sweep_loop sweep_by arp_request_frame send_again ◌>>=◌
sweep_loop-due env sr r rs d =
    let early : leb 5 r.times_sent ≡ false = lt→leb 5 r.times_sent d.few in
    let sent =
      sr_send_packet-sent sr (asking d.via r.ip) 42 d.via.name (omega arith) (omega arith) d.named
        refl in
    rw (d.to, early, sent)

IsDue-with_frame :
    (sr : Instance) (g : Buf) (name : List ℕ) (r : Req)
    → IsDue sr r
    → IsDue (with_frame sr g 42 name) r
unfolding target_ip_2_iface sr_get_interface
IsDue-with_frame sr g name r d = record {
  few = d.few;
  via = d.via;
  to = d.to;
  named = d.named;
  via_word = d.via_word;
  ip_word = d.ip_word;
}

target-with_frame :
    (sr : Instance) (g : Buf) (name : List ℕ) (ip : ℕ)
    → target_ip_2_iface (with_frame sr g 42 name) ip ≡ target_ip_2_iface sr ip
unfolding target_ip_2_iface sr_get_interface
target-with_frame sr g name ip = refl

-- The routes do not depend on the frames sent.
Asked-with_frame :
    (sr : Instance) (g : Buf) (name : List ℕ) (rs : List Req) (old new : List Frame)
    → Asked (with_frame sr g 42 name) rs old new
    → Asked sr rs old new
unfolding target_ip_2_iface sr_get_interface
Asked-with_frame sr g name [] old new h = h
Asked-with_frame sr g name (r ∷ rs) old new (via, f, to, is, h) =
    (via, f, to, is, Asked-with_frame sr g name rs _ new h)

sweep_loop-Resent :
    (env : Env) (sr : Instance) (rs : List Req)
    → All (IsDue sr) rs
    → (w : Swept) × (sweep_loop env sr rs ≡ done w) × Resent sr rs w
unfolding sweep_loop ◌>>=◌
sweep_loop-Resent env sr [] due =
    (_, refl, record { requests = refl; dead = refl; asked = refl; same = refl })
sweep_loop-Resent env sr (r ∷ rs) due =
    let d = due.0 in
    let g = asking d.via r.ip in
    let sr' = with_frame sr g 42 d.via.name in
    let rest = All-mono _ _ rs (λ q k. IsDue-with_frame sr g d.via.name q k) due.1 in
    let (w, run, s) = sweep_loop-Resent env sr' rs rest in
    (
      with_counted r w,
      sweep_loop-due env sr r rs d ∙ rw run,
      record {
        requests = ap (λ l. counted r ∷ l) s.requests;
        dead = s.dead;
        asked = (
          d.via,
          g,
          d.to,
          asking-IsArpRequest d.via r.ip d.via_word d.ip_word,
          Asked-with_frame sr g d.via.name rs _ _ s.asked,
        );
        same = s.same;
      },
    )

-- When every waiting request was sent less than five times and its address has a route by an
-- interface that is found by its own name, the sweep returns: it has asked for each address once,
-- in order, by a broadcast ARP request out of the interface of its route, and counted each request;
-- the entries stay.
pub sweepreqs-Resent :
    (env : Env) (sr : Instance)
    → All (IsDue sr) sr.cache.requests
    → (sr' : Instance) × (sr_arpcache_sweepreqs env sr ≡ done sr')
      × (sr'.cache.requests ≡ map counted sr.cache.requests)
      × (sr'.cache.entries ≡ sr.cache.entries)
      × Asked sr sr.cache.requests sr.sent sr'.sent
unfolding sr_arpcache_sweepreqs ◌>>=◌
sweepreqs-Resent env sr due =
    let (w, run, s) = sweep_loop-Resent env sr sr.cache.requests due in
    (finish w, rw run, rw s.dead s.requests, rw (s.dead, s.same), rw s.dead s.asked)

-- A request that was sent often enough, behind others that go out again.
sweep_loop-late :
    (env : Env) (sr : Instance) (before : List Req) (r : Req) (p : Packet) (ps : List Packet)
    (rs : List Req)
    → All (IsDue sr) before
    → 5 ≤ r.times_sent
    → r.packets ≡ p ∷ ps
    → (via : Iface) → target_ip_2_iface sr r.ip ≡ some via
    → sweep_loop env sr (before ++ (r ∷ rs)) ≡ fault
unfolding sweep_loop sweep_by arp_request_frame give_up reject_all ◌>>=◌
sweep_loop-late env sr [] r p ps rs due late waits via to =
    let stop : leb 5 r.times_sent ≡ true = le→leb 5 r.times_sent late in
    rw (to, stop, waits, host_unreachable_lem sr (fresh_buf 74 env.junk) p)
sweep_loop-late env sr (b ∷ before) r p ps rs due late waits via to =
    let d = due.0 in
    let g = asking d.via b.ip in
    let rest = All-mono _ _ before (λ q k. IsDue-with_frame sr g d.via.name q k) due.1 in
    sweep_loop-due env sr b (before ++ (r ∷ rs)) d
    ∙ rw (
        sweep_loop-late env (with_frame sr g 42 d.via.name) before r p ps rs rest late waits via
          (target-with_frame sr g d.via.name r.ip ∙ to))

-- A request that was sent five times and that a packet waits for is never given up in order: with a
-- route to its address, and all requests in front of it due, the sweep has undefined behaviour.
pub sweepreqs-late :
    (env : Env) (sr : Instance) (before : List Req) (r : Req) (p : Packet) (ps : List Packet)
    (rs : List Req)
    → sr.cache.requests ≡ before ++ (r ∷ rs)
    → All (IsDue sr) before
    → 5 ≤ r.times_sent
    → r.packets ≡ p ∷ ps
    → (via : Iface) → target_ip_2_iface sr r.ip ≡ some via
    → sr_arpcache_sweepreqs env sr ≡ fault
unfolding sr_arpcache_sweepreqs ◌>>=◌
sweepreqs-late env sr before r p ps rs split due late waits via to =
    let stuck : sweep_loop env sr sr.cache.requests ≡ fault =
      ap (sweep_loop env sr) split
      ∙ sweep_loop-late env sr before r p ps rs due late waits via to in
    rw stuck
