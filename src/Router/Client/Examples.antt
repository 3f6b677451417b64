-- ===== src/Router/Client/Examples.antt =====
-- A server that describes a router, sends it a frame and goes away.
use cs.Base.{
  ◌>>=◌, ◌>>◌, str_eq, ℕ, ◌+◌, ◌≡◌, refl, List, [], ◌∷◌, ◌++◌, length, replicate, true, false,
  Option, none, some, done, fault, arith, ltb, if◌then◌else◌,
}
use cs.Bytes.{Buf, byte_at, word_at, of_bytes, htonl}
use cs.Router.State.{Iface, Instance}
use cs.Router.Network.{eth0, eth1_name, gateway, default_route, quiet, moment}
use cs.Router.Hardware.{sr_handle_hwinfo}
use cs.Router.Interfaces.{sr_get_interface, find_name, sr_add_interface}
use cs.Router.Routes.{best_loop, target_ip_2_iface}
use cs.Router.Server.{Answer, bytes, interrupted, command, never, read_command}
use cs.Router.Server.Framing.{
  whole, Pieces, last_piece, piece, signal, IsCommand, read_command-IsCommand,
}
use cs.Router.Server.Ended.{Started, nothing_yet, some_bytes, caught, in_body, read_command-Cut}
use cs.Router.Login.{Host, sr_handle_auth_request}
use cs.Router.Login.Reply.{IsReply, sr_handle_auth_request-IsReply}
use cs.Router.Table.{Fields, Library, sr_load_rt, sr_verify_routing_table}
use cs.Router.Table.Loaded.{
  IsEntry, IsBad, Entries, no_entries, entry_added, replaced, sr_load_rt-Entries,
}
use cs.Router.Client.{World, Session, more, take_hwinfo, sr_read_from_server}
use cs.Router.Client.Commands.{named, sr_read_from_server-short, take_hwinfo-target}

-- A command of twelve bytes: its length, and a banner of four characters.
abbrev head : List ℕ
head = 0 ∷ 0 ∷ 0 ∷ 12 ∷ []

abbrev banner : List ℕ
banner = 0 ∷ 0 ∷ 0 ∷ 8 ∷ 104 ∷ 105 ∷ 33 ∷ 0 ∷ []

abbrev heads : List Answer
heads = bytes (0 ∷ []) ∷ interrupted ∷ bytes (0 ∷ 0 ∷ 12 ∷ []) ∷ []

heads-Pieces : Pieces heads head
heads-Pieces = piece (0 ∷ []) (signal (last_piece (0 ∷ 0 ∷ 12 ∷ []) (omega arith)))

abbrev banners : List Answer
banners = bytes (0 ∷ 0 ∷ 0 ∷ 8 ∷ 104 ∷ []) ∷ bytes (105 ∷ 33 ∷ 0 ∷ []) ∷ []

banners-Pieces : Pieces banners banner
banners-Pieces = piece (0 ∷ 0 ∷ 0 ∷ 8 ∷ 104 ∷ []) (last_piece (105 ∷ 33 ∷ 0 ∷ []) (omega arith))

read_command-IsCommand_example :
    (b : Buf) × (read_command (λ i. 7) (heads ++ (banners ++ (interrupted ∷ [])))
      ≡ done
          (command b (4 + length banner) (htonl (word_at (of_bytes banner) 0)) (interrupted ∷ [])))
    × IsCommand banner b
read_command-IsCommand_example =
    read_command-IsCommand (λ i. 7) head banner (interrupted ∷ []) heads-Pieces banners-Pieces refl
      refl (omega arith) (omega arith)

abbrev half_banner : List Answer
half_banner = bytes (0 ∷ 0 ∷ []) ∷ interrupted ∷ []

half-Started : Started half_banner (0 ∷ 0 ∷ [])
half-Started = some_bytes (0 ∷ 0 ∷ []) (caught nothing_yet)

read_command-Cut_example :
    read_command (λ i. 7) ((heads ++ half_banner) ++ replicate 9 (bytes [])) ≡ done never
read_command-Cut_example =
    read_command-Cut (λ i. 7) 9
      (in_body head 12 heads-Pieces refl refl (omega arith) (omega arith) half-Started
        (omega arith))

-- A digest that is the number of bytes.
abbrev host : Host
host = record {
  auth_key = some (107 ∷ 101 ∷ 121 ∷ []);
  digest = λ bs. some (λ j. length bs);
  junk = λ i. 7;
  can_write = true;
  can_send = true;
}

abbrev user : List ℕ
user = 109 ∷ 101 ∷ []

abbrev salted : Buf
salted = of_bytes (0 ∷ 0 ∷ 0 ∷ 10 ∷ 0 ∷ 0 ∷ 0 ∷ 128 ∷ 5 ∷ 6 ∷ [])

sr_handle_auth_request-IsReply_example :
    (b : Buf) × (sr_handle_auth_request host user salted 10 ≡ done (some b))
    × IsReply user (λ j. 66) b
sr_handle_auth_request-IsReply_example =
    sr_handle_auth_request-IsReply host user (107 ∷ 101 ∷ 121 ∷ []) salted 10 (λ j. 66)
      (omega arith) (omega arith) (omega arith) (omega arith) (λ j. omega arith) refl refl refl

-- A library that knows three lines: `1` for a route, `2` for a route whose gateway cannot be read, and an empty one.
abbrev good : Fields
good = record { dest = 48 ∷ []; gw = 49 ∷ []; mask = 48 ∷ []; iface = eth1_name }

abbrev bad : Fields
bad = record { dest = 48 ∷ []; gw = 120 ∷ []; mask = 48 ∷ []; iface = eth1_name }

abbrev scan : List ℕ → List (List ℕ)
scan [] = []
scan (c ∷ cs) =
    if ltb c 50
    then good.dest ∷ good.gw ∷ good.mask ∷ good.iface ∷ []
    else bad.dest ∷ bad.gw ∷ bad.mask ∷ bad.iface ∷ []

abbrev aton : List ℕ → Option ℕ
aton [] = none
aton (c ∷ cs) = if ltb c 49 then some 0 else if ltb c 50 then some gateway else none

abbrev library : Library
library = record { scan = scan; aton = aton }

good-IsEntry : IsEntry library (49 ∷ []) good default_route
good-IsEntry = record {
  fields = record {
    scanned = refl;
    dest_fits = omega arith;
    gw_fits = omega arith;
    mask_fits = omega arith;
    iface_fits = omega arith;
  };
  dest_of = refl;
  gw_of = refl;
  mask_of = refl;
  name_of = refl;
}

bad-IsBad : IsBad library (50 ∷ []) bad
bad-IsBad = record {
  fields = record {
    scanned = refl;
    dest_fits = omega arith;
    gw_fits = omega arith;
    mask_fits = omega arith;
    iface_fits = omega arith;
  };
  unread = refl;
}

one_route : Entries library ((49 ∷ []) ∷ []) (default_route ∷ [])
one_route = entry_added (49 ∷ []) good default_route good-IsEntry no_entries

sr_load_rt-Entries_example :
    (sr_load_rt library bad quiet (some ((49 ∷ []) ∷ []))
      ≡ done (
        record quiet { routing_table = replaced (default_route ∷ []) (default_route ∷ []) },
        true,
      ))
    × (sr_load_rt library bad quiet (some (((49 ∷ []) ∷ []) ++ ((50 ∷ []) ∷ [])))
        ≡ done (
          record quiet { routing_table = replaced (default_route ∷ []) (default_route ∷ []) },
          false,
        ))
sr_load_rt-Entries_example =
    sr_load_rt-Entries library bad bad quiet (50 ∷ []) [] one_route bad-IsBad

abbrev world : World
world = record { host = host; env = moment; block = λ i. 0; iface = eth0 }

abbrev session : List Answer → Session
session socket = record { router = quiet; socket = socket; user = user; replies = []; tables = [] }

abbrev short_packet : List ℕ
short_packet = 0 ∷ 0 ∷ 0 ∷ 4 ∷ 101 ∷ 116 ∷ 104 ∷ 48 ∷ []

eth0_named :
    sr_get_interface quiet (named (whole (λ i. 0) (4 + length short_packet) short_packet))
    ≡ some eth0
unfolding sr_get_interface find_name str_eq
eth0_named = refl

sr_read_from_server-short_example :
    sr_read_from_server world (session (heads ++ ((bytes short_packet ∷ []) ++ []))) ≡ fault
sr_read_from_server-short_example =
    sr_read_from_server-short world (session (heads ++ ((bytes short_packet ∷ []) ++ []))) head
      short_packet [] eth0 refl heads-Pieces (last_piece short_packet (omega arith)) refl refl
      (omega arith) (omega arith) refl eth0_named

-- A router with a route and no interfaces, and the description of its one interface.
abbrev bare : Instance
bare = record quiet { if_list = [] }

abbrev hardware : Buf
hardware = record {
  len = 44;
  at = byte_at (0 ∷ 0 ∷ 0 ∷ 44 ∷ 16 ∷ 0 ∷ 0 ∷ 0 ∷ 0 ∷ 0 ∷ 0 ∷ 1 ∷ 101 ∷ 116 ∷ 104 ∷ 49 ∷ []);
}

abbrev equipped : Instance
equipped = record bare { if_list = record eth0 { name = eth1_name } ∷ [] }

accepted : take_hwinfo world bare hardware 44 ≡ done (equipped, more)
unfolding take_hwinfo ◌>>=◌ ◌>>◌ sr_handle_hwinfo sr_verify_routing_table find_name str_eq
    sr_add_interface
accepted = refl

matched : best_loop gateway equipped.routing_table none ≡ some default_route
unfolding best_loop
matched = refl

take_hwinfo-target_example : (i : Iface) × (target_ip_2_iface equipped gateway ≡ some i)
take_hwinfo-target_example =
    take_hwinfo-target world bare equipped hardware 44 gateway default_route accepted matched
