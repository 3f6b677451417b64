-- ===== src/Ctcp/Session.antt =====
-- The receiver from the start of a connection: `ctcp_init`, then segments in any order.
use cs.Base.{
  ℕ, ◌+◌, ◌-◌, ◌%◌, ◌^◌, ◌&&◌, ◌≡◌, refl, sym, ◌∙◌, List, [], ◌∷◌, false, none, ◌==◌, ltb, leb,
  arith, All, Run, done, Ensures, Ensures-mono, Ensures-done, done-injective, returns, next, bind,
  branch, Bool-cases, inl, inr,
}
use cs.Bytes.{Buf, htonl}
use cs.Ctcp.State.{State, Wrapped, end_of}
use cs.Ctcp.Ack.{ship_ack}
use cs.Ctcp.Sender.{IsWhole, reaching, last_byte, ackwipe-reaching}
use cs.Ctcp.Output.{bytes_from, to_size, deliver, Walk, keep, output_by, output_loop, ctcp_output}
use cs.Ctcp.Stream.{IsPart, IsDelivered, last_of}
use cs.Ctcp.Receive.{
  IsFrom, IsReady, take_ack, take_fin, take_data, ctcp_receive, ctcp_receive-IsDelivered,
}

unfoldable pub ctcp_init : ℕ → ℕ → ℕ → State
ctcp_init recv_window send_window rt_timeout = record {
  recv_window = recv_window;
  send_window = send_window;
  rt_timeout = rt_timeout;
  unacked = [];
  buffered = [];
  last_output = none;
  rx_fin = 0;
  tx_eof = 0;
  seqno_last_shipped = 0;
  receiver_has_acked = 0;
  next_ackno = 1;
  bbr = record {
    state = 0;
    bandwidths = 2 ∷ 0 ∷ 0 ∷ 0 ∷ 0 ∷ 0 ∷ 0 ∷ 0 ∷ 0 ∷ 0 ∷ [];
    index = 0;
    last_max = 0;
  };
  sent = [];
  output = [];
  closed = false;
}

-- Taking in data leaves the sending half alone.
record SameSender (st st' : State) : Type 0 where
  unacked : st'.unacked ≡ st.unacked
  bbr : st'.bbr ≡ st.bbr

SameSender-refl : (st : State) → SameSender st st
SameSender-refl st = record { unacked = refl; bbr = refl }

SameSender-trans : {a b c : State} → SameSender a b → SameSender b c → SameSender a c
SameSender-trans u v = record { unacked = v.unacked ∙ u.unacked; bbr = v.bbr ∙ u.bbr }

ship_ack-SameSender : (st : State) (ackno : ℕ) → Ensures (SameSender st) (ship_ack st ackno)
unfolding ship_ack
ship_ack-SameSender st ackno = next _ λ a. returns (record { unacked = refl; bbr = refl })

deliver-SameSender :
    (st : State) (b : Buf) (len end n : ℕ) → Ensures (SameSender st) (deliver st b len end n)
unfolding deliver
deliver-SameSender st b len end n =
    bind (ship_ack-SameSender st _)
      λ st' u. next _ λ bytes. next _ λ copy. returns (record { unacked = u.unacked; bbr = u.bbr })

abbrev SameWalk : State → Walk → Type 0
SameWalk st w = SameSender st w.0

module _ (space : List ℕ → ℕ) where
  output_by-SameWalk :
      (st : State) (b : Buf) (rest : List Buf) (start len last : ℕ) (walk : State → Run Walk)
      → ((st' : State) → Ensures (SameWalk st') (walk st'))
      → Ensures (SameWalk st) (output_by space st b rest start len last walk)
  unfolding output_by
  output_by-SameWalk st b rest start len last walk go =
      let end = end_of start len in
      let n = (end + 2 ^ 32 - last) % 2 ^ 32 in
      let following = (last + 1) % 2 ^ 32 in
      branch (last == end)
        (bind {f = λ acked. done (acked, b ∷ rest)} (ship_ack-SameSender st ((end + 1) % 2 ^ 32))
          λ st' u. returns {a = (st', b ∷ rest)} u)
        (branch (leb start following && leb following end)
          (branch (ltb (space st.output) (to_size n))
            (returns {a = (st, b ∷ rest)} (SameSender-refl st))
            (bind (deliver-SameSender st b len end n)
              λ st' u. Ensures-mono (go st') λ w v. SameSender-trans u v))
          (bind {f = λ w. done (keep b w)} (go st) λ w v. returns {a = keep b w} v))

  output_loop-SameWalk :
      (st : State) (bs : List Buf) → Ensures (SameWalk st) (output_loop space st bs)
  unfolding output_loop
  output_loop-SameWalk st [] = returns (SameSender-refl st)
  output_loop-SameWalk st (b ∷ rest) = next _ λ start. next _ λ len. next _ λ last.
      output_by-SameWalk st b rest start len last (λ st'. output_loop space st' rest)
        λ st'. output_loop-SameWalk st' rest

  ctcp_output-SameSender : (st : State) → Ensures (SameSender st) (ctcp_output space st)
  unfolding ctcp_output
  ctcp_output-SameSender st =
      bind (output_loop-SameWalk st st.buffered)
        λ w u. returns (record { unacked = u.unacked; bbr = u.bbr })

reaching-IsWhole :
    (ackno : ℕ) (ws : List Wrapped) → All IsWhole ws → All IsWhole (reaching ackno ws)
unfolding reaching
reaching-IsWhole ackno [] all = tt
reaching-IsWhole ackno (w ∷ ws) all = elim (Bool-cases (leb ackno (last_byte w))) [
  | inl stays ↦ rw stays (all.0, reaching-IsWhole ackno ws all.1)
  | inr goes ↦ rw goes (reaching-IsWhole ackno ws all.1)
]

IsReady-Same : (st st' : State) → SameSender st st' → IsReady st → IsReady st'
IsReady-Same st st' u r = record { filter = rw u.bbr r.filter; unacked = rw u.unacked r.unacked }

module _ (to_uint32 : ℕ → ℕ) (space : List ℕ → ℕ) where
  take_ack-IsReady :
      (st : State) (f : Buf) (flags : ℕ)
      → IsReady st
      → Ensures IsReady (take_ack to_uint32 space st f flags)
  unfolding take_ack
  take_ack-IsReady st f flags r = branch _ (returns r) (
      next _ λ ackno.
        let (c, e, g, _, _) = ackwipe-reaching to_uint32 st (htonl ackno) r.filter r.unacked in
        rw e (
          returns
            (record { filter = g; unacked = reaching-IsWhole (htonl ackno) st.unacked r.unacked })))

  take_fin-IsReady :
      (st : State) (f : Buf) (flags : ℕ)
      → IsReady st
      → Ensures IsReady (take_fin to_uint32 space st f flags)
  unfolding take_fin
  take_fin-IsReady st f flags r =
      branch _ (returns r)
        (next _ λ seqno. returns (record { filter = r.filter; unacked = r.unacked }))

  take_data-IsReady :
      (st : State) (f : Buf) → IsReady st → Ensures IsReady (take_data to_uint32 space st f)
  unfolding take_data
  take_data-IsReady st f r = next _ λ len. branch _ (returns r) (
      next _ λ copy.
        Ensures-mono (ctcp_output-SameSender space _)
          λ st' u. IsReady-Same _ st' u (record { filter = r.filter; unacked = r.unacked }))

  ctcp_receive-IsReady :
      (st : State) (f : Buf) (len : ℕ)
      → IsReady st
      → Ensures IsReady (ctcp_receive to_uint32 space st f len)
  unfolding ctcp_receive
  ctcp_receive-IsReady st f len r = next _ λ sum. next _ λ g. next _ λ window. next _ λ flags.
      bind (take_ack-IsReady _ g flags (record { filter = r.filter; unacked = r.unacked }))
        λ st1 r1. bind (take_fin-IsReady st1 g flags r1) λ st2 r2. take_data-IsReady st2 g r2

  -- Segments of the stream `s` come in one after the other.
  pub data Session (s : ℕ → ℕ) (start : State) : State → Type 0 where
    opened : Session s start start
    received :
        {st st' : State} (f : Buf) (len : ℕ)
        → Session s start st
        → IsFrom s f len
        → ctcp_receive to_uint32 space st f len ≡ done st'
        → Session s start st'

  record IsOpen (s : ℕ → ℕ) (st : State) : Type 0 where
    ready : IsReady st
    parts : All (IsPart s) st.buffered
    delivered : IsDelivered s st

  init-IsOpen : (s : ℕ → ℕ) (r w t : ℕ) → IsOpen s (ctcp_init r w t)
  unfolding ctcp_init
  init-IsOpen s r w t = record {
    ready = record { filter = record { size = refl; place = omega arith }; unacked = tt };
    parts = tt;
    delivered = record { part = tt; output = refl };
  }

  Session-IsOpen :
      (s : ℕ → ℕ) {start st : State} → IsOpen s start → Session s start st → IsOpen s st
  Session-IsOpen s o opened = o
  Session-IsOpen s o (received {st} {st'} f len before v e) =
      let i = Session-IsOpen s o before in
      let (st2, e', d, _, all) =
        ctcp_receive-IsDelivered to_uint32 space s f len v st i.ready i.parts i.delivered in
      let same : st2 ≡ st' = done-injective (sym e' ∙ e) in
      record {
        ready = Ensures-done (ctcp_receive-IsReady st f len i.ready) e;
        parts = rw same at all;
        delivered = rw same at d;
      }

  -- From the start of a connection, whatever segments of a stream come in, in whatever order and however
  -- often, each whole and with numbers of 31 bits: what was output is the beginning of the stream, and the
  -- next segment of the stream is taken in without fault.
  pub Session-output :
      (s : ℕ → ℕ) (r w t : ℕ) {st : State}
      → Session s (ctcp_init r w t) st
      → (st.output ≡ bytes_from s 1 (last_of st.last_output))
        × ((f : Buf) (len : ℕ)
            → IsFrom s f len
            → (st' : State) × (ctcp_receive to_uint32 space st f len ≡ done st'))
  Session-output s r w t {st} run =
      let i = Session-IsOpen s (init-IsOpen s r w t) run in
      (
        i.delivered.output,
        λ f len v.
            let (st', e, _, _, _) =
              ctcp_receive-IsDelivered to_uint32 space s f len v st i.ready i.parts i.delivered in
            (st', e),
      )
