-- ===== src/Router/Start/Examples.antt =====
-- A server that lets a user in, and the program that it is the server of.
use cs.Base.{
  ◌%◌, ℕ, ◌≡◌, refl, List, [], ◌∷◌, length, true, false, Option, none, some, done, Ensures, arith,
  ltb, if◌then◌else◌,
}
use cs.Bytes.{Buf}
use cs.Router.Network.{eth0, eth1_name, gateway, quiet, moment}
use cs.Router.Server.{Answer, bytes, interrupted}
use cs.Router.Server.Framing.{last_piece, signal}
use cs.Router.Login.{Host}
use cs.Router.Client.{World, Session, vns_auth_request, vns_auth_status}
use cs.Router.Opening.{Uplink, Identity, message}
use cs.Router.Opening.Messages.{IsMessage, message-IsMessage}
use cs.Router.Opening.Admits.{IsFramed, IsReady, IsOpened, sr_connect_to_server-IsOpened}
use cs.Router.Start.{Options, System, main}
use cs.Router.Start.Whole.{Result, main-IsServed}

-- A digest that is the number of bytes, up to a thousand.
abbrev host : Host
host = record {
  auth_key = some (107 ∷ 101 ∷ 121 ∷ []);
  digest = λ bs. some (λ j. length bs % 1000);
  junk = λ i. 7;
  can_write = true;
  can_send = true;
}

abbrev user : List ℕ
user = 109 ∷ 101 ∷ []

abbrev world : World
world = record { host = host; env = moment; block = λ i. 0; iface = eth0 }

abbrev router : Identity
router = record { host = 118 ∷ 114 ∷ []; template = []; topo_id = 1 }

abbrev salted : List ℕ
salted = 0 ∷ 0 ∷ 0 ∷ 128 ∷ 5 ∷ 6 ∷ []

abbrev welcome : List ℕ
welcome = 0 ∷ 0 ∷ 2 ∷ 0 ∷ 1 ∷ []

-- The status, and what follows.
abbrev admitted : List Answer
admitted = bytes (0 ∷ 0 ∷ 0 ∷ 9 ∷ []) ∷ interrupted ∷ bytes welcome ∷ []

abbrev greeting : List Answer
greeting = bytes (0 ∷ 0 ∷ 0 ∷ 10 ∷ []) ∷ bytes salted ∷ admitted

abbrev uplink : Uplink
uplink = record { found = true; available = true; reachable = true }

abbrev session : Session
session = record { router = quiet; socket = greeting; user = user; replies = []; tables = [] }

message-IsMessage_example :
    (b : Buf) × (message router user (λ i. 7) ≡ done b) × IsMessage false router user b
message-IsMessage_example = message-IsMessage router user (λ i. 7) (omega arith) (omega arith)

greeting-IsFramed :
    IsFramed vns_auth_request
      (bytes (0 ∷ 0 ∷ 0 ∷ 10 ∷ []) ∷ [])
      (bytes salted ∷ [])
      (0 ∷ 0 ∷ 0 ∷ 10 ∷ [])
      salted
greeting-IsFramed = record {
  head_pieces = last_piece (0 ∷ 0 ∷ 0 ∷ 10 ∷ []) (omega arith);
  body_pieces = last_piece salted (omega arith);
  word = refl;
  length_field = refl;
  low = omega arith;
  high = omega arith;
  kind_field = refl;
}

welcome-IsFramed :
    IsFramed vns_auth_status
      (bytes (0 ∷ 0 ∷ 0 ∷ 9 ∷ []) ∷ [])
      (interrupted ∷ bytes welcome ∷ [])
      (0 ∷ 0 ∷ 0 ∷ 9 ∷ [])
      welcome
welcome-IsFramed = record {
  head_pieces = last_piece (0 ∷ 0 ∷ 0 ∷ 9 ∷ []) (omega arith);
  body_pieces = signal (last_piece welcome (omega arith));
  word = refl;
  length_field = refl;
  low = omega arith;
  high = omega arith;
  kind_field = refl;
}

uplink-IsReady : IsReady uplink (λ i. world) (107 ∷ 101 ∷ 121 ∷ [])
uplink-IsReady = record {
  found = refl;
  available = refl;
  reachable = refl;
  key = refl;
  digests = λ bs. ((λ j. length bs % 1000), refl, (λ j. omega arith));
  sends = refl;
  sends_opening = refl;
}

sr_connect_to_server-IsOpened_example :
    IsOpened uplink (λ i. world) router session (107 ∷ 101 ∷ 121 ∷ []) salted []
sr_connect_to_server-IsOpened_example =
    sr_connect_to_server-IsOpened uplink (λ i. world) router session
      (bytes (0 ∷ 0 ∷ 0 ∷ 10 ∷ []) ∷ []) (bytes salted ∷ []) (bytes (0 ∷ 0 ∷ 0 ∷ 9 ∷ []) ∷ [])
      (interrupted ∷ bytes welcome ∷ []) (0 ∷ 0 ∷ 0 ∷ 10 ∷ []) salted (0 ∷ 0 ∷ 0 ∷ 9 ∷ []) welcome
      [] (107 ∷ 101 ∷ 121 ∷ []) uplink-IsReady refl (omega arith) (omega arith) (omega arith)
      greeting-IsFramed welcome-IsFramed (omega arith) (λ e. omega arith) refl

-- A file of one line, and a library that finds a default route in it.
abbrev route : List (List ℕ)
route = (48 ∷ []) ∷ (49 ∷ []) ∷ (48 ∷ []) ∷ eth1_name ∷ []

abbrev aton : List ℕ → Option ℕ
aton [] = none
aton (c ∷ cs) = if ltb c 49 then some 0 else some gateway

abbrev system : System
system = record {
  library = record { scan = λ line. route; aton = aton };
  arrays = record { dest = []; gw = []; mask = []; iface = [] };
  memory = quiet;
  login = some user;
  files_before = λ name. some ((49 ∷ []) ∷ []);
  files_after = λ name. some ((49 ∷ []) ∷ []);
  can_dump = λ name. true;
  uplink = uplink;
  opening = λ i. world;
  rounds = λ i. world;
  ticks = λ i. moment ∷ [];
  socket = greeting;
  first_request = 4;
}

abbrev options : Options
options = record {
  host = 118 ∷ 114 ∷ [];
  user = none;
  rtable = 114 ∷ [];
  template = none;
  topo = 1;
  logfile = none;
}

main-IsServed_example : Ensures (Result system options) (main system options 9)
main-IsServed_example = main-IsServed system options 9
