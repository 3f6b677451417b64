-- ===== src/Router/State.antt =====
-- The data of sr_if.h, sr_rt.h, sr_arpcache.h and sr_router.h.
use cs.Base.{ℕ, List, Bool}
use cs.Bytes.{Buf, Mac}

-- struct sr_if. A name is its characters, without the terminator.
pub record Iface : Type 0 where
  pub name : List ℕ
  pub addr : Mac
  pub ip : ℕ

-- struct sr_rt. The addresses are in network order, as `s_addr` holds them.
pub record Rt : Type 0 where
  pub dest : ℕ
  pub gw : ℕ
  pub mask : ℕ
  pub interface : List ℕ

-- struct sr_packet
pub record Packet : Type 0 where
  pub buf : Buf
  pub len : ℕ
  pub iface : List ℕ

-- struct sr_arpentry
pub record Entry : Type 0 where
  pub mac : Mac
  pub ip : ℕ
  pub added : ℕ
  pub valid : Bool

-- struct sr_arpreq. `address` is where the request lies in memory, by which `sr_arpreq_destroy`
-- knows it. `sent` is never used.
pub record Req : Type 0 where
  pub address : ℕ
  pub ip : ℕ
  pub times_sent : ℕ
  pub packets : List Packet

-- struct sr_arpcache, and the address that the next `calloc` of a request returns.
pub record ArpCache : Type 0 where
  pub entries : List Entry
  pub requests : List Req
  pub next_address : ℕ

-- A frame that was handed to `write` for an interface.
pub record Frame : Type 0 where
  pub buf : Buf
  pub len : ℕ
  pub iface : List ℕ

-- struct sr_instance, with the frames sent so far, the newest first.
pub record Instance : Type 0 where
  pub if_list : List Iface
  pub routing_table : List Rt
  pub cache : ArpCache
  pub sent : List Frame

-- What the handlers take from the system: `time(NULL)`, and the contents of memory that malloc or a
-- local array does not clear.
pub record Env : Type 0 where
  pub now : ℕ
  pub junk : ℕ → ℕ
