-- ===== src/Router/Client/Lived.antt =====
-- What a session with the server may do to the router.
use mathlib.Core.Path.{subst}
use cs.Base.{
  ℕ, zero, suc, ◌≡◌, refl, sym, ◌∙◌, List, [], ◌∷◌, Option, none, some, Run, done, fault, Ensures,
  returns, undefined, next, bind, branch, Ensures-mono, ◌==◌,
}
use cs.Bytes.{Buf}
use cs.Router.Sweep.Limits.{sr_arpcache_timeout-IsStep}
use cs.Router.State.{Iface, Instance, Env}
use cs.Router.Interfaces.{
  sr_add_interface, sr_set_ether_addr, sr_set_ether_ip, update_last, with_list,
}
use cs.Router.Cache.Invariant.{IsCache}
use cs.Router.Send.Laws.{IsStep}
use cs.Router.Safety.{sr_handlepacket-IsStep}
use cs.Router.Hardware.{
  HwEntry, hw_interface, hw_ether_ip, hw_ether, hw_other, handle_entry, sr_handle_hwinfo,
}
use cs.Router.Server.{Reading, command, refused, never}
use cs.Router.Client.{
  World, Session, Status, more, closed, error, Served, ended, blocked, running, take_packet,
  take_hwinfo, dispatch, serve_reading, sr_read_from_server_expect, sr_read_from_server, sweeps,
  with_router, main_loop, table_written, answered, after_round, vns_packet, vns_close, vns_hwinfo,
  vns_rtable, vns_auth_request, vns_auth_status,
}
use cs.Router.Login.{sr_handle_rtable, sr_handle_auth_request, sr_handle_auth_status}

-- Only the interfaces change.
pub record IsDescribed (sr sr' : Instance) : Type 0 where
  pub same_routes : sr'.routing_table ≡ sr.routing_table
  pub same_cache : sr'.cache ≡ sr.cache
  pub same_sent : sr'.sent ≡ sr.sent

-- The router after some commands and rounds of the thread: each was a step of the handlers or of the thread, or described
-- the interfaces.
pub data Lived (start : Instance) : Instance → Type 0 where
  fresh : Lived start start
  handled : {sr sr' : Instance} → Lived start sr → IsStep sr sr' → Lived start sr'
  described : {sr sr' : Instance} → Lived start sr → IsDescribed sr sr' → Lived start sr'

IsDescribed-refl : (sr : Instance) → IsDescribed sr sr
IsDescribed-refl sr = record { same_routes = refl; same_cache = refl; same_sent = refl }

IsDescribed-trans :
    {sr sr' sr'' : Instance} → IsDescribed sr sr' → IsDescribed sr' sr'' → IsDescribed sr sr''
IsDescribed-trans a b = record {
  same_routes = b.same_routes ∙ a.same_routes;
  same_cache = b.same_cache ∙ a.same_cache;
  same_sent = b.same_sent ∙ a.same_sent;
}

with_list-IsDescribed :
    (sr : Instance) (r : Run (List Iface)) → Ensures (IsDescribed sr) (with_list sr r)
with_list-IsDescribed sr (done l) =
    returns (record { same_routes = refl; same_cache = refl; same_sent = refl })
with_list-IsDescribed sr fault = undefined

handle_entry-IsDescribed :
    (junk : Iface) (sr : Instance) (e : HwEntry) → Ensures (IsDescribed sr) (handle_entry junk sr e)
unfolding handle_entry sr_add_interface sr_set_ether_addr sr_set_ether_ip
handle_entry-IsDescribed junk sr (hw_interface name) =
    returns (record { same_routes = refl; same_cache = refl; same_sent = refl })
handle_entry-IsDescribed junk sr (hw_ether_ip ip) =
    with_list-IsDescribed sr (update_last (λ w. record w { ip = ip }) sr.if_list)
handle_entry-IsDescribed junk sr (hw_ether addr) =
    with_list-IsDescribed sr (update_last (λ w. record w { addr = addr }) sr.if_list)
handle_entry-IsDescribed junk sr (hw_other key) = returns (IsDescribed-refl sr)

sr_handle_hwinfo-IsDescribed :
    (junk : Iface) (sr : Instance) (es : List HwEntry)
    → Ensures (IsDescribed sr) (sr_handle_hwinfo junk sr es)
unfolding sr_handle_hwinfo
sr_handle_hwinfo-IsDescribed junk sr [] = returns (IsDescribed-refl sr)
sr_handle_hwinfo-IsDescribed junk sr (e ∷ es) = bind (handle_entry-IsDescribed junk sr e) λ sr' d.
    Ensures-mono (sr_handle_hwinfo-IsDescribed junk sr' es) (λ sr'' d'. IsDescribed-trans d d')

module _ (start : Instance) (w : World) (s : Session) (l : Lived start s.router) where
  take_packet-Lived : (buf : Buf) (len : ℕ) → Ensures (Lived start) (take_packet w s.router buf len)
  unfolding take_packet
  take_packet-Lived buf len = next _ λ name. next _ λ other.
      branch other (returns l)
        (Ensures-mono (sr_handlepacket-IsStep s.router w.env _ name) (λ sr' st. handled l st))

  take_hwinfo-Lived :
      (buf : Buf) (len : ℕ) → Ensures (λ p. Lived start p.0) (take_hwinfo w s.router buf len)
  unfolding take_hwinfo
  take_hwinfo-Lived buf len =
      next _ λ es.
        bind (sr_handle_hwinfo-IsDescribed w.iface s.router es) λ sr' d. returns (described l d)

  written-Lived : (t : Option (List ℕ × Buf)) → Lived start (table_written s t).0.router
  written-Lived none = l
  written-Lived (some t) = l

  answered-Lived : (r : Option Buf) → Lived start (answered s r).0.router
  answered-Lived none = l
  answered-Lived (some r) = l

  dispatch-Lived :
      (buf : Buf) (len kind : ℕ) → Ensures (λ p. Lived start p.0.router) (dispatch w s buf len kind)
  unfolding dispatch
  dispatch-Lived buf len kind =
      branch (kind == vns_packet) (bind (take_packet-Lived buf len) λ sr' k. returns k) (
        branch (kind == vns_close) (returns l) (
          branch (kind == vns_hwinfo) (bind (take_hwinfo-Lived buf len) λ p k. returns k) (
            branch (kind == vns_rtable)
              (next (sr_handle_rtable w.host buf len) λ t. returns (written-Lived t))
              (branch (kind == vns_auth_request)
                (next (sr_handle_auth_request w.host s.user buf len)
                  λ r. returns (answered-Lived r))
                (branch (kind == vns_auth_status) (next (sr_handle_auth_status buf) λ ok. returns l)
                  (returns l))))))

-- The router after a round, whatever came of it.
abbrev AfterRound : Instance → Option (Session × Status) → Type 0
AfterRound start none = Unit
AfterRound start (some (s, st)) = Lived start s.router

-- The router when the loop stands still.
abbrev pub router_of : Served → Instance
router_of (ended s) = s.router
router_of (blocked s) = s.router
router_of (running s) = s.router

serve_reading-Lived :
    (start : Instance) (w : World) (expected : ℕ) (s : Session) (r : Reading)
    → Lived start s.router
    → Ensures (AfterRound start) (serve_reading w expected s r)
serve_reading-Lived start w expected s never l = returns tt
serve_reading-Lived start w expected s (refused rest) l = returns l
serve_reading-Lived start w expected s (command buf len kind rest) l =
    branch _ (returns l)
      (bind (dispatch-Lived start w (record s { socket = rest }) l buf len kind) λ p k. returns k)

sr_read_from_server-Lived :
    (start : Instance) (w : World) (s : Session)
    → Lived start s.router
    → Ensures (AfterRound start) (sr_read_from_server w s)
unfolding sr_read_from_server sr_read_from_server_expect
sr_read_from_server-Lived start w s l = next _ λ r. serve_reading-Lived start w 0 s r l

after_round-Lived :
    (start : Instance) (k : Session → Run Served) (s : Session) (r : Option (Session × Status))
    → Lived start s.router
    → AfterRound start r
    → ((s' : Session) → Lived start s'.router → Ensures (λ q. Lived start (router_of q)) (k s'))
    → Ensures (λ q. Lived start (router_of q)) (after_round k s r)
after_round-Lived start k s none l m f = returns l
after_round-Lived start k s (some (s', more)) l m f = f s' m
after_round-Lived start k s (some (s', closed)) l m f = returns m
after_round-Lived start k s (some (s', error)) l m f = returns m

-- A sequence of commands keeps the invariant of the cache.
pub Lived-IsCache : {sr sr' : Instance} → Lived sr sr' → IsCache sr.cache → IsCache sr'.cache
Lived-IsCache fresh v = v
Lived-IsCache (handled l st) v = st.keeps (Lived-IsCache l v)
Lived-IsCache (described l d) v = subst IsCache (sym d.same_cache) (Lived-IsCache l v)

module _ (start : Instance) (v : IsCache start.cache) where
  sweeps-Lived :
      (envs : List Env) (sr : Instance) → Lived start sr → Ensures (Lived start) (sweeps envs sr)
  unfolding sweeps
  sweeps-Lived [] sr l = returns l
  sweeps-Lived (env ∷ envs) sr l =
      bind (sr_arpcache_timeout-IsStep env sr (Lived-IsCache l v))
        λ sr' st. sweeps-Lived envs sr' (handled l st)

  main_loop-from :
      (w : ℕ → World) (t : ℕ → List Env) (n : ℕ) (s : Session)
      → Lived start s.router
      → Ensures (λ r. Lived start (router_of r)) (main_loop w t n s)
  unfolding main_loop
  main_loop-from w t zero s l = returns l
  main_loop-from w t (suc n) s l = bind (sweeps-Lived (t n) s.router l) λ sr k.
      bind (sr_read_from_server-Lived start (w n) (with_router s sr) k) λ r m.
        after_round-Lived start (λ s'. main_loop w t n s') (with_router s sr) r k m
          (λ s' j. main_loop-from w t n s' j)

-- Whatever the server sends, however the socket cuts it up, and however many rounds the thread makes between two
-- commands: unless it comes to undefined behaviour, the main loop leaves a router whose cache is within its invariant as
-- a sequence of commands and rounds does of which each either sends genuine frames only and keeps the
-- invariant, with the interfaces and routes as they were, or describes the interfaces and changes nothing else.
pub main_loop-Lived :
    (w : ℕ → World) (t : ℕ → List Env) (n : ℕ) (s : Session)
    → IsCache s.router.cache
    → Ensures (λ r. Lived s.router (router_of r)) (main_loop w t n s)
main_loop-Lived w t n s v = main_loop-from s.router v w t n s fresh
