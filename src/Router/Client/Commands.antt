-- ===== src/Router/Client/Commands.antt =====
-- Commands of the server that the router cannot take, and what it knows of those that it does take.
use cs.Base.{
  ℕ, ◌+◌, ◌-◌, ◌≤◌, ◌<◌, ◌≡◌, ◌≢◌, refl, Ensures, Ensures-done, returns, next, List, ◌++◌, length,
  true, false, none, some, done, fault, ◌>>=◌, ltb, leb, ◌==◌, ==_iff, if◌then◌else◌, Bool-cases,
  inl, inr, arith,
}
use cs.Bytes.{Buf, fits, word_at, of_bytes, htonl}
use cs.Router.Login.{until_nul}
use cs.Router.State.{Iface, Rt, Instance}
use cs.Router.Interfaces.{sr_get_interface}
use cs.Router.Routes.{best_loop, target_ip_2_iface}
use cs.Router.Send.{sr_arp_req_not_for_us}
use cs.Router.Hardware.{sr_handle_hwinfo}
use cs.Router.Table.{sr_verify_routing_table}
use cs.Router.Table.Verified.{verified-target}
use cs.Router.Server.{Answer}
use cs.Router.Server.Framing.{Pieces, whole, read_command-whole}
use cs.Router.Client.{
  World, Session, more, error, vns_packet, block_from, frame_len, take_packet, hw_entries,
  num_entries, take_hwinfo, dispatch, sr_read_from_server_expect, sr_read_from_server,
}

-- The frame's length wraps around, and the ARP header lies outside of the block.
not_for_us-short :
    (sr : Instance) (b : Buf) (len : ℕ) (name : List ℕ) (i : Iface)
    → 8 ≤ len
    → len < 24
    → b.len ≡ len
    → sr_get_interface sr name ≡ some i
    → sr_arp_req_not_for_us sr (block_from b 24) (frame_len len) name ≡ fault
unfolding sr_arp_req_not_for_us ◌>>=◌
not_for_us-short sr b len name i low high size known =
    let large : ltb (frame_len len) 42 ≡ false = ground arith in
    let outside : leb 14 (b.len - 24) ≡ false = ground arith in rw (large, known, outside)

-- The name that a packet command carries.
abbrev pub named : Buf → List ℕ
named b = until_nul 32 b.at 8

take_packet-short :
    (w : World) (sr : Instance) (b : Buf) (len : ℕ) (i : Iface)
    → 8 ≤ len
    → len < 24
    → b.len ≡ len
    → sr_get_interface sr (named b) ≡ some i
    → take_packet w sr b len ≡ fault
unfolding take_packet ◌>>=◌
take_packet-short w sr b len i low high size known =
    let inside = fits b 8 (if ltb (length (named b)) 32 then length (named b) + 1 else 32) in
    elim (Bool-cases inside) [
      | inl e ↦ rw (e, not_for_us-short sr b len (named b) i low high size known)
      | inr e ↦ rw e
    ]

-- A packet command of fewer than 24 bytes, which is shorter than the header of such a command, is undefined behaviour
-- when it names an interface of the router, however the socket cuts it into pieces: its name is not whole, or the
-- length of the frame in it wraps around and the check for ARP reads outside of the block.
pub sr_read_from_server-short :
    (w : World) (s : Session) {heads bodies : List Answer} (head body : List ℕ) (rest : List Answer)
    (i : Iface)
    → s.socket ≡ heads ++ (bodies ++ rest)
    → Pieces heads head
    → Pieces bodies body
    → length head ≡ 4
    → htonl (word_at (of_bytes head) 0) ≡ 4 + length body
    → 4 ≤ length body
    → 4 + length body < 24
    → htonl (word_at (of_bytes body) 0) ≡ vns_packet
    → sr_get_interface s.router (named (whole w.block (4 + length body) body)) ≡ some i
    → sr_read_from_server w s ≡ fault
unfolding sr_read_from_server sr_read_from_server_expect dispatch ◌>>=◌
sr_read_from_server-short w s head body rest i gives p q four field low high kind known =
    let is_packet : (htonl (word_at (of_bytes body) 0) == vns_packet) ≡ true =
      (==_iff (htonl (word_at (of_bytes body) 0)) vns_packet).1 kind in
    rw (
      gives,
      read_command-whole w.block head body rest p q four field low (omega arith),
      is_packet,
      take_packet-short w s.router (whole w.block (4 + length body) body) (4 + length body) i
          (omega arith) high refl known,
    )

error-ne-more : error ≢ more
error-ne-more e = cc

take_hwinfo-verified :
    (w : World) (sr : Instance) (buf : Buf) (len : ℕ)
    → Ensures (λ p. p.1 ≡ more → sr_verify_routing_table p.0 ≡ 0) (take_hwinfo w sr buf len)
unfolding take_hwinfo
take_hwinfo-verified w sr buf len =
    next (hw_entries buf 8 (num_entries len))
      λ es. next (sr_handle_hwinfo w.iface sr es) λ sr'. returns (accepted sr')
  where
    accepted :
        (sr' : Instance)
        → (if sr_verify_routing_table sr' == 0 then more else error) ≡ more
        → sr_verify_routing_table sr' ≡ 0
    accepted sr' h = elim (Bool-cases (sr_verify_routing_table sr' == 0)) [
      | inl e ↦ (==_iff (sr_verify_routing_table sr') 0).0 e
      | inr e ↦ absurd (error-ne-more (rw e at h))
    ]

-- Once a description of the hardware is accepted, every address that some route matches has an interface to go
-- out by.
pub take_hwinfo-target :
    (w : World) (sr sr' : Instance) (buf : Buf) (len dst : ℕ) (r : Rt)
    → take_hwinfo w sr buf len ≡ done (sr', more)
    → best_loop dst sr'.routing_table none ≡ some r
    → (i : Iface) × (target_ip_2_iface sr' dst ≡ some i)
take_hwinfo-target w sr sr' buf len dst r h best =
    verified-target sr' dst r (Ensures-done (take_hwinfo-verified w sr buf len) h refl) best
