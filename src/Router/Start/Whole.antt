-- ===== src/Router/Start/Whole.antt =====
-- The program from its start on.
use mathlib.Core.Path.{subst}
use cs.Base.{
  ℕ, ◌≡◌, refl, sym, ◌∙◌, Bool, true, false, not, ◌&&◌, List, [], ◌∷◌, Option, none, some, Run,
  done, Ensures, returns, undefined, next, bind, branch, Ensures-mono, ◌>>=◌, if◌then◌else◌,
}
use cs.Router.State.{Instance}
use cs.Router.Cache.{sr_arpcache_init}
use cs.Router.Cache.Invariant.{IsCache, sr_arpcache_init-IsCache}
use cs.Router.Routes.{sr_add_rt_entry}
use cs.Router.Table.{Fields, Library, assign, addresses, add_entry, if_read, load_lines, sr_load_rt}
use cs.Router.Client.{Session, Served, main_loop}
use cs.Router.Client.Lived.{Lived, router_of, main_loop-Lived, Lived-IsCache}
use cs.Router.Opening.{sr_connect_to_server, Connection, established, abandoned, stalled}
use cs.Router.Opening.Granted.{Outcome, sr_connect_to_server-IsGranted}
use cs.Router.Start.{
  Options, System, Ran, exited, rejected, served, waits, sr_init_instance, identity, user_of,
  load_before, table_file, dump_opens, sr_init, serve, after_connection, main,
}

-- A value together with where it comes from.
also-known :
    {A : Type 0} {P : A → Type 0} {r : Run A} → Ensures P r → Ensures (λ a. (r ≡ done a) × P a) r
also-known (returns p) = returns (refl, p)
also-known undefined = undefined

-- Only the routes change.
record OnlyRoutes (sr sr' : Instance) : Type 0 where
  same_interfaces : sr'.if_list ≡ sr.if_list
  same_cache : sr'.cache ≡ sr.cache
  same_sent : sr'.sent ≡ sr.sent

OnlyRoutes-refl : (sr : Instance) → OnlyRoutes sr sr
OnlyRoutes-refl sr = record { same_interfaces = refl; same_cache = refl; same_sent = refl }

OnlyRoutes-trans :
    {sr sr' sr'' : Instance} → OnlyRoutes sr sr' → OnlyRoutes sr' sr'' → OnlyRoutes sr sr''
OnlyRoutes-trans a b = record {
  same_interfaces = b.same_interfaces ∙ a.same_interfaces;
  same_cache = b.same_cache ∙ a.same_cache;
  same_sent = b.same_sent ∙ a.same_sent;
}

add_entry-OnlyRoutes :
    (loaded : Bool) (sr : Instance) (f : Fields) (a : ℕ × ℕ × ℕ)
    → OnlyRoutes sr (add_entry loaded sr f a)
unfolding sr_add_rt_entry
add_entry-OnlyRoutes true sr f a = record {
  same_interfaces = refl;
  same_cache = refl;
  same_sent = refl;
}
add_entry-OnlyRoutes false sr f a = record {
  same_interfaces = refl;
  same_cache = refl;
  same_sent = refl;
}

if_read-OnlyRoutes :
    (sr : Instance) (a : Option (ℕ × ℕ × ℕ)) (k : ℕ × ℕ × ℕ → Run (Instance × Bool))
    → ((a : ℕ × ℕ × ℕ) → Ensures (λ p. OnlyRoutes sr p.0) (k a))
    → Ensures (λ p. OnlyRoutes sr p.0) (if_read sr a k)
if_read-OnlyRoutes sr none k h = returns (OnlyRoutes-refl sr)
if_read-OnlyRoutes sr (some a) k h = h a

load_lines-OnlyRoutes :
    (c : Library) (loaded : Bool) (sr : Instance) (f : Fields) (lines : List (List ℕ))
    → Ensures (λ p. OnlyRoutes sr p.0) (load_lines c loaded sr f lines)
unfolding load_lines
load_lines-OnlyRoutes c loaded sr f [] = returns (OnlyRoutes-refl sr)
load_lines-OnlyRoutes c loaded sr f (line ∷ lines) = next (assign f (c.scan line)) λ f'.
    if_read-OnlyRoutes sr (addresses c f')
      (λ a. load_lines c true (add_entry loaded sr f' a) f' lines)
      λ a.
        Ensures-mono (load_lines-OnlyRoutes c true (add_entry loaded sr f' a) f' lines)
          (λ p o. OnlyRoutes-trans (add_entry-OnlyRoutes loaded sr f' a) o)

sr_load_rt-OnlyRoutes :
    (c : Library) (f : Fields) (sr : Instance) (file : Option (List (List ℕ)))
    → Ensures (λ p. OnlyRoutes sr p.0) (sr_load_rt c f sr file)
unfolding sr_load_rt
sr_load_rt-OnlyRoutes c f sr none = returns (OnlyRoutes-refl sr)
sr_load_rt-OnlyRoutes c f sr (some lines) = load_lines-OnlyRoutes c false sr f lines

-- The router with which the main loop begins: no interfaces, nothing sent, an empty cache, and the routes of the second
-- load of the file into the router that the first load leaves.
pub record IsStarted (sys : System) (o : Options) (sr : Instance) : Type 0 where
  pub before : Instance
  pub after : Instance
  pub no_interfaces : sr.if_list ≡ []
  pub none_sent : sr.sent ≡ sys.memory.sent
  pub empty_cache : sr.cache ≡ sr_arpcache_init sys.first_request
  pub first_load : load_before sys o o.template (sr_init_instance sys.memory) ≡ done (before, true)
  pub loaded :
      sr_load_rt sys.library sys.arrays before (sys.files_after (table_file o o.template))
      ≡ done (after, true)
  pub routes : sr.routing_table ≡ after.routing_table

-- What the main loop leaves, if the program comes to it.
pub record IsServed (sys : System) (o : Options) (r : Served) : Type 0 where
  pub start : Instance
  pub started : IsStarted sys o start
  pub lived : Lived start (router_of r)
  pub cache : IsCache (router_of r).cache

abbrev pub Result : System → Options → Ran → Type 0
Result sys o exited = Unit
Result sys o rejected = Unit
Result sys o (served r) = IsServed sys o r
Result sys o waits = Unit

-- Nothing has happened to the router but the first load.
abbrev IsBlank : System → Options → Instance → Type 0
IsBlank sys o sr =
    (sr.if_list ≡ [])
    × (sr.sent ≡ sys.memory.sent)
    × (load_before sys o o.template (sr_init_instance sys.memory) ≡ done (sr, true))

serve-Result :
    (sys : System) (o : Options) (n : ℕ) (s : Session)
    → IsBlank sys o s.router
    → Ensures (Result sys o) (serve sys o n s)
unfolding serve sr_init
serve-Result sys o n s (no_interfaces, none_sent, first_load) =
    bind
      (also-known (
        sr_load_rt-OnlyRoutes sys.library sys.arrays s.router
          (sys.files_after (table_file o o.template))))
      λ (sr, ok) (e, same). go sr ok e same
  where
    go :
        (sr : Instance) (ok : Bool)
        → sr_load_rt sys.library sys.arrays s.router (sys.files_after (table_file o o.template))
          ≡ done (sr, ok)
        → OnlyRoutes s.router sr
        → Ensures (Result sys o) (
            if not ok
            then done exited
            else (main_loop sys.rounds sys.ticks n
                  (record s { router = sr_init sr sys.first_request })
                >>= λ r. done (served r)))
    go sr false e same = returns tt
    go sr true e same =
        let start = sr_init sr sys.first_request in
        let v = sr_arpcache_init-IsCache sys.first_request in
        bind (main_loop-Lived sys.rounds sys.ticks n (record s { router = start }) v) λ r l.
          returns (record {
            start = start;
            started = record {
              before = s.router;
              after = sr;
              no_interfaces = same.same_interfaces ∙ no_interfaces;
              none_sent = same.same_sent ∙ none_sent;
              empty_cache = refl;
              first_load = first_load;
              loaded = e;
              routes = refl;
            };
            lived = l;
            cache = Lived-IsCache l v;
          })

-- The first load.
load_before-OnlyRoutes :
    (sys : System) (o : Options) (template : Option (List ℕ)) (sr : Instance)
    → Ensures (λ p. OnlyRoutes sr p.0) (load_before sys o template sr)
load_before-OnlyRoutes sys o none sr =
    sr_load_rt-OnlyRoutes sys.library sys.arrays sr (sys.files_before o.rtable)
load_before-OnlyRoutes sys o (some template) sr = returns (OnlyRoutes-refl sr)

after_connection-Result :
    (sys : System) (o : Options) (n : ℕ) (s : Session) (c : Connection)
    → IsBlank sys o s.router
    → Outcome sys.opening (identity o) s c
    → Ensures (Result sys o) (after_connection sys o n c)
after_connection-Result sys o n s (established s') blank g =
    serve-Result sys o n s' (subst (IsBlank sys o) (sym g.same_router) blank)
after_connection-Result sys o n s (abandoned s') blank g = returns tt
after_connection-Result sys o n s stalled blank g = returns tt

-- The session that is to be opened.
abbrev opened : System → Options → Instance → Session
opened sys o sr = record {
  router = sr;
  socket = sys.socket;
  user = user_of o.user sys.login;
  replies = [];
  tables = [];
}

-- Whatever the files hold, whatever the server sends, and however many rounds the timeout thread makes between two
-- commands, but none while a command is handled: unless the program comes to undefined behaviour or fails an assertion, its
-- main loop begins with no interfaces, an empty ARP cache, no frame sent since the start, and the routes that the routing
-- table's file gives, loaded into the router as the first load has left it; and it leaves the router as a sequence of
-- commands and rounds does of which each either sends genuine frames only or describes the interfaces; the cache's
-- invariant holds.
pub main-IsServed : (sys : System) (o : Options) (n : ℕ) → Ensures (Result sys o) (main sys o n)
unfolding main sr_init_instance
main-IsServed sys o n =
    bind (also-known (load_before-OnlyRoutes sys o o.template (sr_init_instance sys.memory)))
      λ (sr, ok) (e, same). go sr ok e same
  where
    go :
        (sr : Instance) (ok : Bool)
        → load_before sys o o.template (sr_init_instance sys.memory) ≡ done (sr, ok)
        → OnlyRoutes (sr_init_instance sys.memory) sr
        → Ensures (Result sys o) (
            if not (ok && dump_opens sys.can_dump o.logfile)
            then done exited
            else (sr_connect_to_server sys.uplink sys.opening (identity o) (opened sys o sr)
                >>= λ c. after_connection sys o n c))
    go sr false e same = returns tt
    go sr true e same = branch (not (dump_opens sys.can_dump o.logfile)) (returns tt) (
        bind (sr_connect_to_server-IsGranted sys.uplink sys.opening (identity o) (opened sys o sr))
          λ c g.
            after_connection-Result sys o n (opened sys o sr) c
              (same.same_interfaces, same.same_sent, e) g)
