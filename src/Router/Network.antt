-- ===== src/Router/Network.antt =====
-- A small router with two interfaces and a default route by the second, and frames for it.
use cs.Base.{
  ℕ, zero, suc, ◌+◌, ◌*◌, ◌^◌, ◌≡◌, List, [], ◌∷◌, Bool, true, ◌&&◌, ltb, arith, replicate,
}
use cs.Bytes.{Buf, Mac, HasBytes, of_bytes}
use cs.Router.State.{Iface, Rt, Packet, Req, Entry, ArpCache, Instance, Env}
use cs.Router.Cache.{cache_size, zero_entry}

abbrev pub all_bytes : List ℕ → Bool
all_bytes [] = true
all_bytes (b ∷ bs) = ltb b 256 && all_bytes bs

pub of_bytes-HasBytes : (bs : List ℕ) → all_bytes bs ≡ true → HasBytes (of_bytes bs)
of_bytes-HasBytes [] h i = omega arith
of_bytes-HasBytes (b ∷ bs) h zero = ground arith
of_bytes-HasBytes (b ∷ bs) h (suc i) = of_bytes-HasBytes bs (ground arith) i

abbrev pub address : ℕ → ℕ → ℕ → ℕ → ℕ
address a b c d = a + b * 256 + c * 2 ^ 16 + d * 2 ^ 24

abbrev pub eth0_name : List ℕ
eth0_name = 101 ∷ 116 ∷ 104 ∷ 48 ∷ []

abbrev pub eth1_name : List ℕ
eth1_name = 101 ∷ 116 ∷ 104 ∷ 49 ∷ []

abbrev pub eth0 : Iface
eth0 = record {
  name = eth0_name;
  addr = record { b0 = 1; b1 = 2; b2 = 3; b3 = 4; b4 = 5; b5 = 6 };
  ip = address 10 0 0 1;
}

abbrev pub eth1 : Iface
eth1 = record {
  name = eth1_name;
  addr = record { b0 = 17; b1 = 18; b2 = 19; b3 = 20; b4 = 21; b5 = 22 };
  ip = address 10 0 1 1;
}

abbrev pub gateway : ℕ
gateway = address 10 0 1 2

abbrev pub gateway_mac : Mac
gateway_mac = record { b0 = 30; b1 = 31; b2 = 32; b3 = 33; b4 = 34; b5 = 35 }

abbrev pub default_route : Rt
default_route = record { dest = 0; gw = gateway; mask = 0; interface = eth1_name }

abbrev pub known : Entry
known = record { mac = gateway_mac; ip = gateway; added = 7; valid = true }

abbrev pub network : ArpCache → Instance
network cache = record {
  if_list = eth0 ∷ eth1 ∷ [];
  routing_table = default_route ∷ [];
  cache = cache;
  sent = [];
}

-- Nothing is known and nothing waits.
abbrev pub blank : ArpCache
blank = record { entries = replicate cache_size zero_entry; requests = []; next_address = 0 }

abbrev pub quiet : Instance
quiet = network blank

abbrev pub informed : Instance
informed = network (record { entries = known ∷ []; requests = []; next_address = 0 })

-- No route at all.
abbrev pub isolated : Instance
isolated = record quiet { routing_table = [] }

abbrev pub moment : Env
moment = record { now = 9; junk = λ i. 0 }

-- A packet for another network.
abbrev pub transit_bytes : List ℕ
transit_bytes =
    1 ∷ 2 ∷ 3 ∷ 4 ∷ 5 ∷ 6 ∷ 10 ∷ 11 ∷ 12 ∷ 13 ∷ 14 ∷ 15 ∷ 8 ∷ 0 ∷ 69 ∷ 0 ∷ 0 ∷ 64 ∷ 0 ∷ 1 ∷ 0 ∷ 0
    ∷ 64 ∷ 17 ∷ 101 ∷ 155 ∷ 10 ∷ 0 ∷ 0 ∷ 9 ∷ 10 ∷ 0 ∷ 1 ∷ 9 ∷ 1 ∷ 2 ∷ 3 ∷ 4 ∷ 5 ∷ 6 ∷ 7 ∷ 8 ∷ 9 ∷ 10
    ∷ 11 ∷ 12 ∷ 13 ∷ 14 ∷ 15 ∷ 16 ∷ 17 ∷ 18 ∷ 19 ∷ 20 ∷ 21 ∷ 22 ∷ 23 ∷ 24 ∷ 25 ∷ 26 ∷ 27 ∷ 28 ∷ 29
    ∷ 30 ∷ 31 ∷ 32 ∷ 33 ∷ 34 ∷ 35 ∷ 36 ∷ 37 ∷ 38 ∷ 39 ∷ 40 ∷ 41 ∷ 42 ∷ 43 ∷ 44 ∷ []

abbrev pub transit : Buf
transit = of_bytes transit_bytes

-- The same with its last hop.
abbrev pub last_hop_bytes : List ℕ
last_hop_bytes =
    1 ∷ 2 ∷ 3 ∷ 4 ∷ 5 ∷ 6 ∷ 10 ∷ 11 ∷ 12 ∷ 13 ∷ 14 ∷ 15 ∷ 8 ∷ 0 ∷ 69 ∷ 0 ∷ 0 ∷ 64 ∷ 0 ∷ 1 ∷ 0 ∷ 0
    ∷ 1 ∷ 17 ∷ 164 ∷ 155 ∷ 10 ∷ 0 ∷ 0 ∷ 9 ∷ 10 ∷ 0 ∷ 1 ∷ 9 ∷ 1 ∷ 2 ∷ 3 ∷ 4 ∷ 5 ∷ 6 ∷ 7 ∷ 8 ∷ 9 ∷ 10
    ∷ 11 ∷ 12 ∷ 13 ∷ 14 ∷ 15 ∷ 16 ∷ 17 ∷ 18 ∷ 19 ∷ 20 ∷ 21 ∷ 22 ∷ 23 ∷ 24 ∷ 25 ∷ 26 ∷ 27 ∷ 28 ∷ 29
    ∷ 30 ∷ 31 ∷ 32 ∷ 33 ∷ 34 ∷ 35 ∷ 36 ∷ 37 ∷ 38 ∷ 39 ∷ 40 ∷ 41 ∷ 42 ∷ 43 ∷ 44 ∷ []

abbrev pub last_hop : Buf
last_hop = of_bytes last_hop_bytes

-- An echo request to the first interface.
abbrev pub echo_bytes : List ℕ
echo_bytes =
    1 ∷ 2 ∷ 3 ∷ 4 ∷ 5 ∷ 6 ∷ 10 ∷ 11 ∷ 12 ∷ 13 ∷ 14 ∷ 15 ∷ 8 ∷ 0 ∷ 69 ∷ 0 ∷ 0 ∷ 30 ∷ 0 ∷ 1 ∷ 0 ∷ 0
    ∷ 64 ∷ 1 ∷ 102 ∷ 213 ∷ 10 ∷ 0 ∷ 0 ∷ 9 ∷ 10 ∷ 0 ∷ 0 ∷ 1 ∷ 8 ∷ 0 ∷ 150 ∷ 154 ∷ 0 ∷ 1 ∷ 0 ∷ 2 ∷ 97
    ∷ 98 ∷ []

abbrev pub echo : Buf
echo = of_bytes echo_bytes

-- Who has the address of the first interface?
abbrev pub arp_request_bytes : List ℕ
arp_request_bytes =
    255 ∷ 255 ∷ 255 ∷ 255 ∷ 255 ∷ 255 ∷ 10 ∷ 11 ∷ 12 ∷ 13 ∷ 14 ∷ 15 ∷ 8 ∷ 6 ∷ 0 ∷ 1 ∷ 8 ∷ 0 ∷ 6 ∷ 4
    ∷ 0 ∷ 1 ∷ 10 ∷ 11 ∷ 12 ∷ 13 ∷ 14 ∷ 15 ∷ 10 ∷ 0 ∷ 0 ∷ 9 ∷ 0 ∷ 0 ∷ 0 ∷ 0 ∷ 0 ∷ 0 ∷ 10 ∷ 0 ∷ 0 ∷ 1
    ∷ []

abbrev pub arp_request : Buf
arp_request = of_bytes arp_request_bytes

-- The gateway tells its address.
abbrev pub arp_reply_bytes : List ℕ
arp_reply_bytes =
    17 ∷ 18 ∷ 19 ∷ 20 ∷ 21 ∷ 22 ∷ 30 ∷ 31 ∷ 32 ∷ 33 ∷ 34 ∷ 35 ∷ 8 ∷ 6 ∷ 0 ∷ 1 ∷ 8 ∷ 0 ∷ 6 ∷ 4 ∷ 0
    ∷ 2 ∷ 30 ∷ 31 ∷ 32 ∷ 33 ∷ 34 ∷ 35 ∷ 10 ∷ 0 ∷ 1 ∷ 2 ∷ 17 ∷ 18 ∷ 19 ∷ 20 ∷ 21 ∷ 22 ∷ 10 ∷ 0 ∷ 1
    ∷ 1 ∷ []

abbrev pub arp_reply : Buf
arp_reply = of_bytes arp_reply_bytes

abbrev pub parked : Packet
parked = record { buf = transit; len = transit.len; iface = eth1_name }

abbrev pub asking : ℕ → Req
asking times = record { address = 0; ip = gateway; times_sent = times; packets = parked ∷ [] }

-- A packet waits for the gateway.
abbrev pub expecting : ℕ → ArpCache
expecting times = record blank { requests = asking times ∷ []; next_address = 1 }
