-- ===== src/Ctcp/Sys/Unreliable/Faultless.antt =====
-- `conn_send` without faults, up to the other end.
use mathlib.Core.Path.{fun_ext}
use cs.Base.{
  ℕ, ◌+◌, ◌-◌, ◌%◌, ◌^◌, ◌≤◌, ◌<◌, ◌≡◌, ◌≢◌, refl, sym, ap, ◌∙◌, Bool, true, false, ◌||◌, ltb,
  le→leb, lt→ltb, Bool-cases, inl, inr, done-injective, arith, List, [], ◌∷◌, some, done, ◌>>=◌,
  ◌>>◌, bit_and,
}
use cs.Bytes.{Buf, htons}
use cs.Ctcp.Sys.Convert.{Link, convert_to_datagram}
use cs.Ctcp.Sys.Convert.Steps.{segment_copy}
use cs.Ctcp.Sys.Convert.Round.{convert_to_datagram-done}
use cs.Ctcp.Sys.Convert.Fields.{IsMirror, IsSegment}
use cs.Ctcp.Sys.Filter.{th_syn, th_rst}
use cs.Ctcp.Sys.Filter.Passes.{IsPeer, unwrapped}
use cs.Ctcp.Sys.Loop.{to_receive, receive_packet}
use cs.Ctcp.Sys.Loop.Through.{receive_packet-convert_to_datagram}
use cs.Ctcp.Sys.Unreliable.{
  Luck, Wire, returned, Process, rand_percent, hits, corrupts, sent_bytes, send_copy, send_late,
  send_twice, conn_send,
}
use cs.Ctcp.Sys.Unreliable.Sent.{no_fault}

-- No faults are switched on, and `rand` gives numbers below 2 ^ 31.
pub record IsFaultless (w : Wire) : Type 0 where
  pub no_drop : w.faults.drop ≡ 0
  pub no_duplicate : w.faults.duplicate ≡ 0
  pub no_delay : w.faults.delay ≡ 0
  pub no_corrupt : w.faults.corrupt ≡ 0
  pub random : (k : ℕ) → w.rand k < 2 ^ 31

never-hit : (x : ℕ) → ltb x 0 ≡ false
never-hit x = ground arith

module _ (w : Wire) (f : IsFaultless w) where
  percent_drawn : (k : ℕ) → rand_percent w.rand 0 k ≡ done (w.rand k % 100)
  unfolding rand_percent
  percent_drawn k =
      let low : w.rand k + 0 ≡ w.rand k = omega arith in
      rw (low, lt→ltb (w.rand k) (2 ^ 31) (f.random k))

  hits-off : (opt : ℕ) (l : Luck) → opt ≡ 0 → (l' : Luck) × (hits w opt 0 l ≡ done (false, l'))
  unfolding hits ◌>>=◌
  hits-off opt l off = elim (Bool-cases w.faults.tester) [
    | inl e ↦ (record { did = l.did || false; draws = l.draws }, rw (e, off, no_fault l.did) refl)
    | inr e ↦ (
      record { did = l.did || false; draws = l.draws + 1 },
      rw (e, percent_drawn l.draws, off, never-hit (w.rand l.draws % 100)) refl,
    )
  ]

  corrupts-off : (l : Luck) (percent : ℕ) → corrupts w l percent ≡ false
  corrupts-off l percent = elim (Bool-cases w.faults.tester) [
    | inl e ↦ rw (e, f.no_corrupt) (no_fault l.did)
    | inr e ↦ rw (e, f.no_corrupt) (never-hit percent)
  ]

  -- The one process, and what it sends.
  abbrev alone : Buf → Luck → List Process
  alone d l = record { sent = some d; fate = returned (sent_bytes (w.sendto d)); luck = l } ∷ []

  send_copy-off :
      (l : Luck) (copy d : Buf) (m : ℕ)
      → m ≤ 1440
      → convert_to_datagram w.link copy (20 + m) ≡ done d
      → d.len ≡ 40 + m
      → (l' : Luck) × (send_copy w 0 false l copy (20 + m)
          ≡ done (record { sent = some d; fate = returned (sent_bytes (w.sendto d)); luck = l' }))
  unfolding send_copy ◌>>=◌ ◌>>◌
  send_copy-off l copy d m few e size =
      let whole : (40 + (20 + m) + 2 ^ 16 - 20) % 2 ^ 16 ≡ 40 + m = omega arith in
      (
        record { did = l.did || false; draws = l.draws + 2 },
        rw
            (
              percent_drawn l.draws,
              corrupts-off l (w.rand l.draws % 100),
              e,
              whole,
              le→leb (40 + m) d.len (omega arith),
            )
            refl,
      )

  send_late-off :
      (l : Luck) (copy d : Buf) (m : ℕ)
      → m ≤ 1440
      → convert_to_datagram w.link copy (20 + m) ≡ done d
      → d.len ≡ 40 + m
      → (l' : Luck) × (send_late w 0 false l copy (20 + m) ≡ done (alone d l'))
  unfolding send_late ◌>>=◌
  send_late-off l copy d m few e size =
      let (l1, now) = hits-off w.faults.delay l f.no_delay in
      let (l2, sent) = send_copy-off l1 copy d m few e size in (l2, rw (now, sent) refl)

  conn_send-off :
      (l : Luck) (o : ℕ → ℕ) (d : Buf) (m : ℕ)
      → m ≤ 1440
      → convert_to_datagram w.link (segment_copy (λ i. o (0 + i)) m) (20 + m) ≡ done d
      → d.len ≡ 40 + m
      → (l' : Luck) × (conn_send w false l (record { len = 20 + m; at = o }) (20 + m)
          ≡ done (alone d l'))
  unfolding conn_send send_twice ◌>>=◌ ◌>>◌
  conn_send-off l o d m few e size =
      let (l1, kept) = hits-off w.faults.drop l f.no_drop in
      let (l2, once) = hits-off w.faults.duplicate l1 f.no_duplicate in
      let (l3, sent) = send_late-off l2 (segment_copy (λ i. o (0 + i)) m) d m few e size in
      (l3, rw (le→leb (0 + (20 + m)) (20 + m) (omega arith), kept, once, sent) refl)

from_start : (o : ℕ → ℕ) → o ≡ (λ i. o (0 + i))
from_start o = fun_ext λ i. let e : i ≡ 0 + i = omega arith in ap o e

-- Without faults, a call of `conn_send` sends one packet from the process that called it, and the other end passes the segment of that
-- packet to `ctcp_receive`, byte for byte as it was given to `conn_send`. The options are 0 and `rand` gives numbers below 2 ^ 31. The
-- other end has this connection and no other, and no new one from the same port; the two ends know each other's addresses, ports
-- and initial numbers. The segment has at most 1,460 bytes, its length, padding and flags are right, it has neither SYN nor RST, and
-- its numbers do not wrap around where the packet counts from the initial ones.
pub conn_send-receive_packet :
    (w : Wire) (r : Link) (l : Luck) (o : ℕ → ℕ) (m : ℕ) (unix_socket : Bool) (new_connection : ℕ)
    → IsFaultless w
    → IsPeer w.link r
    → IsMirror w.link r
    → IsSegment w.link o m
    → bit_and (o 12) th_rst ≡ 0
    → bit_and (o 12) th_syn ≡ 0
    → unwrapped w.link (segment_copy o m) ≡ true
    → htons w.link.port ≢ new_connection
    → (d : Buf) × (l' : Luck) × (conn_send w false l (record { len = 20 + m; at = o }) (20 + m)
        ≡ done
            (record { sent = some d; fate = returned (sent_bytes (w.sendto d)); luck = l' } ∷ []))
      × (receive_packet unix_socket r.port (r ∷ []) new_connection (some d)
          ≡ done (to_receive r (segment_copy o m) (20 + m), new_connection))
conn_send-receive_packet w r l o m unix_socket new_connection f peer mirror v rst syn fit other =
    let (d, e, passed) =
      receive_packet-convert_to_datagram w.link r o m unix_socket new_connection peer mirror v rst
        syn fit other in
    let (c, k, t, e', correct, tcp, fk, ft) = convert_to_datagram-done w.link r o m mirror v in
    let size : d.len ≡ 40 + m = ap (λ (b : Buf). b.len) (done-injective (sym e ∙ e')) in
    let e'' =
      ap (λ (q : ℕ → ℕ). convert_to_datagram w.link (segment_copy q m) (20 + m))
        (sym (from_start o))
      ∙ e in
    let (l', sent) = conn_send-off w f l o d m v.few e'' size in (d, l', sent, passed)
