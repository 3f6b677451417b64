-- ===== src/Ctcp/Delivery.antt =====
-- `ctcp_output` against a stream of bytes that are numbered from 1.
use cs.Base.{
  ℕ, ◌+◌, ◌-◌, ◌%◌, ◌^◌, ◌≤◌, ◌<◌, ◌≡◌, refl, ap, ◌∙◌, List, [], ◌∷◌, true, false, ◌&&◌, ◌==◌, ltb,
  leb, le→leb, if◌then◌else◌, arith, All, Run, done, ◌>>=◌, Bool-cases, inl, inr,
}
use cs.Bytes.{Buf}
use cs.Ctcp.State.{State, seqno_of, len_of}
use cs.Ctcp.Ack.{with_sent, ship_ack-IsAck}
use cs.Ctcp.Output.{to_size, deliver, Walk, keep, output_by, output_loop, ctcp_output}
use cs.Ctcp.Stream.{
  IsPart, IsDelivered, last_of, last_of-lt, end_of-part, load_seqno-part, load_len-part,
  last_output_seqno-part, deliver-part,
}

-- What the walk over the segments `bs` leaves.
pub record IsWalked (s : ℕ → ℕ) (st : State) (w : Walk) : Type 0 where
  pub delivered : IsDelivered s w.0
  pub onward : last_of st.last_output ≤ last_of w.0.last_output
  pub kept : All (IsPart s) w.1

abbrev Walks : (ℕ → ℕ) → State → Run Walk → Type 0
Walks s st r = (w : Walk) × (r ≡ done w) × IsWalked s st w

Walks-keep :
    (s : ℕ → ℕ) (st : State) (b : Buf) (r : Run Walk)
    → IsPart s b
    → Walks s st r
    → Walks s st (r >>= λ w. done (keep b w))
unfolding ◌>>=◌
Walks-keep s st b r p ((st', rest), e, i) = (
  (st', b ∷ rest),
  rw e,
  record { delivered = i.delivered; onward = i.onward; kept = (p, i.kept) },
)

Walks-mono :
    (s : ℕ → ℕ) (st st' : State) (r : Run Walk)
    → last_of st.last_output ≤ last_of st'.last_output
    → Walks s st' r
    → Walks s st r
Walks-mono s st st' r h (w, e, i) =
    (w, e, record { delivered = i.delivered; onward = omega (arith, i.onward); kept = i.kept })

module _ (space : List ℕ → ℕ) (s : ℕ → ℕ) where
  stay :
      (st : State) (bs : List Buf) → IsDelivered s st → All (IsPart s) bs → IsWalked s st (st, bs)
  stay st bs d all = record { delivered = d; onward = omega arith; kept = all }

  fit :
      (st : State) (b : Buf) (rest : List Buf) (walk : State → Run Walk)
      → IsPart s b
      → All (IsPart s) rest
      → IsDelivered s st
      → ((st' : State) → IsDelivered s st' → Walks s st' (walk st'))
      → seqno_of b ≤ last_of st.last_output + 1
      → last_of st.last_output < seqno_of b + len_of b - 21
      → let e = seqno_of b + len_of b - 21 in
        let n = (e + 2 ^ 32 - last_of st.last_output) % 2 ^ 32 in
        Walks s st (
          if ltb (space st.output) (to_size n)
          then done (st, b ∷ rest)
          else deliver st b (len_of b) e n >>= walk)
  unfolding ◌>>=◌
  fit st b rest walk p all d go next more =
      let l = last_of st.last_output in
      let e = seqno_of b + len_of b - 21 in
      let n : (e + 2 ^ 32 - l) % 2 ^ 32 ≡ e - l = omega (arith, p.bound) in
      elim (Bool-cases (ltb (space st.output) (to_size ((e + 2 ^ 32 - l) % 2 ^ 32)))) [
        | inl full ↦ rw full ((st, b ∷ rest), refl, stay st (b ∷ rest) d (p, all))
        | inr room ↦
            let (st', run, dl, at_e) = deliver-part s st b p d next more in
            rw (room, n, run) (Walks-mono s st st' (walk st') (omega (arith, at_e)) (go st' dl))
      ]

  output_by-Walks :
      (st : State) (b : Buf) (rest : List Buf) (walk : State → Run Walk)
      → IsPart s b
      → All (IsPart s) rest
      → IsDelivered s st
      → ((st' : State) → IsDelivered s st' → Walks s st' (walk st'))
      → Walks s st (output_by space st b rest (seqno_of b) (len_of b) (last_of st.last_output) walk)
  unfolding output_by ◌>>=◌
  output_by-Walks st b rest walk p all d go =
      let l = last_of st.last_output in
      let e = seqno_of b + len_of b - 21 in
      let low = last_of-lt s st.last_output d.part in
      let following : (l + 1) % 2 ^ 32 ≡ l + 1 = omega (arith, low) in
      rw (end_of-part s b p, following)
        (elim (Bool-cases (l == e)) [
          | inl dup ↦
              let (g, sent, is) = ship_ack-IsAck st ((e + 1) % 2 ^ 32) (omega arith) in
              (
                (with_sent st g ((e + 1) % 2 ^ 32), b ∷ rest),
                rw (dup, sent),
                record {
                  delivered = record { part = d.part; output = d.output };
                  onward = omega arith;
                  kept = (p, all);
                },
              )
          | inr new ↦ rw new (elim (Bool-cases (leb (seqno_of b) (l + 1) && leb (l + 1) e)) [
            | inl fits_in ↦ rw fits_in (fit st b rest walk p all d go (ground arith) (ground arith))
            | inr apart ↦ rw apart (Walks-keep s st b (walk st) p (go st d))
          ])
        ])

  output_loop-Walks :
      (st : State) (bs : List Buf)
      → All (IsPart s) bs
      → IsDelivered s st
      → Walks s st (output_loop space st bs)
  unfolding output_loop ◌>>=◌
  output_loop-Walks st [] all d = ((st, []), refl, stay st [] d tt)
  output_loop-Walks st (b ∷ rest) all d =
      rw (load_seqno-part s b all.0, load_len-part s b all.0, last_output_seqno-part s st d)
        (output_by-Walks st b rest (λ st'. output_loop space st' rest) all.0 all.1 d
          λ st' d'. output_loop-Walks st' rest all.1 d')

  -- When the output is the stream up to the last segment that went out, and all waiting segments are
  -- parts of the stream, `ctcp_output` returns, whatever room the output has, and both stay so: no byte of
  -- the stream is lost, repeated or out of order. The output never goes back.
  pub ctcp_output-IsDelivered :
      (st : State)
      → All (IsPart s) st.buffered
      → IsDelivered s st
      → (st' : State) × (ctcp_output space st ≡ done st')
        × IsDelivered s st'
        × (last_of st.last_output ≤ last_of st'.last_output)
        × All (IsPart s) st'.buffered
  unfolding ctcp_output ◌>>=◌
  ctcp_output-IsDelivered st all d =
      let ((st', rest), e, w) = output_loop-Walks st st.buffered all d in
      (
        record st' { buffered = rest },
        rw e,
        record { part = w.delivered.part; output = w.delivered.output },
        w.onward,
        w.kept,
      )

  output_loop-advances :
      (st : State) (b : Buf) (rest : List Buf)
      → seqno_of b + len_of b - 21 ≤ last_of st.last_output + space st.output
      → IsPart s b
      → All (IsPart s) rest
      → IsDelivered s st
      → seqno_of b ≤ last_of st.last_output + 1
      → last_of st.last_output < seqno_of b + len_of b - 21
      → (w : Walk) × (output_loop space st (b ∷ rest) ≡ done w)
        × IsDelivered s w.0
        × (seqno_of b + len_of b - 21 ≤ last_of w.0.last_output)
  unfolding output_loop output_by ◌>>=◌
  output_loop-advances st b rest ample p all d next more =
      let l = last_of st.last_output in
      let e = seqno_of b + len_of b - 21 in
      let low = last_of-lt s st.last_output d.part in
      let following : (l + 1) % 2 ^ 32 ≡ l + 1 = omega (arith, low) in
      let n : (e + 2 ^ 32 - l) % 2 ^ 32 ≡ e - l = omega (arith, p.bound) in
      let new : (l == e) ≡ false = ground arith in
      let from : leb (seqno_of b) (l + 1) ≡ true = le→leb _ _ next in
      let to : leb (l + 1) e ≡ true = le→leb _ _ (omega arith) in
      let small : ltb (e - l) (2 ^ 31) ≡ true = ground (arith, p.bound) in
      let room : ltb (space st.output) (e - l) ≡ false = ground (arith, ample) in
      let (st1, run, d1, at_e) = deliver-part s st b p d next more in
      let (w, walked, v) = output_loop-Walks st1 rest all d1 in
      (
        w,
        rw
            (
              load_seqno-part s b p,
              load_len-part s b p,
              last_output_seqno-part s st d,
              end_of-part s b p,
              following,
              new,
              from,
              to,
              n,
              small,
              room,
              run,
            )
            walked,
        v.delivered,
        omega (arith, at_e, v.onward),
      )

  -- With room for the bytes that it adds, the segment in front that holds the next byte of the stream goes
  -- out: when all waiting segments are parts of the stream and the output is the stream up to the
  -- last segment that went out, `ctcp_output` returns, and the output, still the stream, reaches
  -- the last byte of the segment. The room is what `conn_bufspace` reports before the segment.
  pub ctcp_output-advances :
      (st : State) (b : Buf) (rest : List Buf)
      → seqno_of b + len_of b - 21 ≤ last_of st.last_output + space st.output
      → st.buffered ≡ b ∷ rest
      → IsPart s b
      → All (IsPart s) rest
      → IsDelivered s st
      → seqno_of b ≤ last_of st.last_output + 1
      → last_of st.last_output < seqno_of b + len_of b - 21
      → (st' : State) × (ctcp_output space st ≡ done st')
        × IsDelivered s st'
        × (seqno_of b + len_of b - 21 ≤ last_of st'.last_output)
  unfolding ctcp_output ◌>>=◌
  ctcp_output-advances st b rest ample front p all d next more =
      let ((st', left), walked, d', far) = output_loop-advances st b rest ample p all d next more in
      let run : output_loop space st st.buffered ≡ done (st', left) =
        ap (output_loop space st) front ∙ walked in
      (record st' { buffered = left }, rw run, record { part = d'.part; output = d'.output }, far)
