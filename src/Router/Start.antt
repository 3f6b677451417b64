-- ===== src/Router/Start.antt =====
-- The program of the router, `main` of sr_main.c, with `sr_init` of sr_router.c. The parsing of the command line, the C
-- library, the files and when the timeout thread makes its rounds are arguments.
pub mod Whole
mod Examples
use cs.Base.{
  ℕ, ◌%◌, ◌^◌, Bool, true, false, not, ◌&&◌, str_eq, List, [], ◌∷◌, take, if◌then◌else◌, Option,
  none, some, Run, done, ◌>>=◌,
}
use cs.Router.State.{Env, Instance}
use cs.Router.Cache.{sr_arpcache_init}
use cs.Router.Table.{Fields, Library, sr_load_rt}
use cs.Router.Server.{Answer}
use cs.Router.Client.{World, Session, Served, main_loop}
use cs.Router.Opening.{
  Uplink, Identity, Connection, established, abandoned, stalled, sr_connect_to_server,
}

-- What the command line gives, with its defaults.
pub record Options : Type 0 where
  pub host : List ℕ
  pub user : Option (List ℕ)
  pub rtable : List ℕ
  pub template : Option (List ℕ)
  pub topo : ℕ
  pub logfile : Option (List ℕ)

-- What the system gives: the arrays and the router before they are filled, the name behind the user's number,
-- the files before and after the session is opened, whether a dump can be opened, the rounds of the timeout thread
-- before each command, and the socket.
pub record System : Type 0 where
  pub library : Library
  pub arrays : Fields
  pub memory : Instance
  pub login : Option (List ℕ)
  pub files_before : List ℕ → Option (List (List ℕ))
  pub files_after : List ℕ → Option (List (List ℕ))
  pub can_dump : List ℕ → Bool
  pub uplink : Uplink
  pub opening : ℕ → World
  pub rounds : ℕ → World
  pub ticks : ℕ → List Env
  pub socket : List Answer
  pub first_request : ℕ

unfoldable pub sr_init_instance : Instance → Instance
sr_init_instance sr = record sr { if_list = []; routing_table = [] }

-- "something_silly"
abbrev pub something_silly : List ℕ
something_silly =
    115 ∷ 111 ∷ 109 ∷ 101 ∷ 116 ∷ 104 ∷ 105 ∷ 110 ∷ 103 ∷ 95 ∷ 115 ∷ 105 ∷ 108 ∷ 108 ∷ 121 ∷ []

-- "rtable.vrhost"
abbrev pub rtable_vrhost : List ℕ
rtable_vrhost = 114 ∷ 116 ∷ 97 ∷ 98 ∷ 108 ∷ 101 ∷ 46 ∷ 118 ∷ 114 ∷ 104 ∷ 111 ∷ 115 ∷ 116 ∷ []

abbrev pub sr_set_user : Option (List ℕ) → List ℕ
sr_set_user none = take 32 something_silly
sr_set_user (some name) = take 32 name

-- The user's name that is given counts before that of the system.
abbrev pub user_of : Option (List ℕ) → Option (List ℕ) → List ℕ
user_of none login = sr_set_user login
user_of (some user) login = take 32 user

abbrev pub template_of : Option (List ℕ) → List ℕ
template_of none = []
template_of (some template) = take 30 template

abbrev pub identity : Options → Identity
identity o = record {
  host = take 32 o.host;
  template = template_of o.template;
  topo_id = o.topo % 2 ^ 16;
}

-- The first load of the table, which a template leaves out.
abbrev pub load_before : System → Options → Option (List ℕ) → Instance → Run (Instance × Bool)
load_before sys o none sr = sr_load_rt sys.library sys.arrays sr (sys.files_before o.rtable)
load_before sys o (some template) sr = done (sr, true)

-- The file of the second load.
abbrev pub table_file : Options → Option (List ℕ) → List ℕ
table_file o none = o.rtable
table_file o (some template) = if str_eq o.rtable rtable_vrhost then rtable_vrhost else o.rtable

abbrev pub dump_opens : (List ℕ → Bool) → Option (List ℕ) → Bool
dump_opens can none = true
dump_opens can (some logfile) = can logfile

-- It starts the timeout thread too, which runs beside the main loop.
unfoldable pub sr_init : Instance → ℕ → Instance
sr_init sr start = record sr { cache = sr_arpcache_init start }

-- How the program ends: by exit(1), by a result of 1, in the main loop, or waiting for the server's first commands.
pub data Ran : Type 0 where
  exited : Ran
  rejected : Ran
  served : Served → Ran
  waits : Ran

unfoldable pub serve : System → Options → ℕ → Session → Run Ran
unfolding sr_init
serve sys o n s = do
  (sr, ok) ← sr_load_rt sys.library sys.arrays s.router (sys.files_after (table_file o o.template))
  if not ok then done exited else do
    r ← main_loop sys.rounds sys.ticks n (record s { router = sr_init sr sys.first_request })
    done (served r)

abbrev pub after_connection : System → Options → ℕ → Connection → Run Ran
after_connection sys o n (established s) = serve sys o n s
after_connection sys o n (abandoned s) = done rejected
after_connection sys o n stalled = done waits

unfoldable pub main : System → Options → ℕ → Run Ran
unfolding sr_init_instance serve
main sys o n = do
  (sr, ok) ← load_before sys o o.template (sr_init_instance sys.memory)
  if not (ok && dump_opens sys.can_dump o.logfile) then done exited else do
    c ← sr_connect_to_server sys.uplink sys.opening (identity o) (record {
      router = sr;
      socket = sys.socket;
      user = user_of o.user sys.login;
      replies = [];
      tables = [];
    })
    after_connection sys o n c
