-- ===== src/Ctcp/Receive.antt =====
-- `ctcp_receive` of ctcp.c. The segment comes in a block of its own, of which `len` bytes were received.
use cs.Base.{
  ℕ, ◌+◌, ◌-◌, ◌%◌, ◌^◌, ◌≤◌, ◌<◌, ◌≡◌, refl, sym, ◌∙◌, List, [], ◌∷◌, ◌++◌, true, false, ◌==◌, ltb,
  leb, le→leb, if◌then◌else◌, arith, All, All-append, bit_and, Run, done, ◌>>=◌, Bool-cases, inl,
  inr,
}
use cs.Bytes.{
  Buf, HasBytes, half_at, word_at, load16, load32, store16, patch, byte_of, htons, htonl,
}
use cs.Checksum.{cksum}
use cs.Checksum.Laws.{cksum-IsChecksum}
use cs.Checksum.Header.{patch-bytes, byte_of-bytes}
use cs.Ctcp.State.{State, ack_flag, fin_flag, seqno_of, len_of, load_seqno, load_len}
use cs.Ctcp.Bbr.{IsFilter}
use cs.Ctcp.Sender.{ackwipe, IsWhole, reaching, later, ackwipe-reaching}
use cs.Ctcp.Output.{wrapped_copy, ctcp_output}
use cs.Ctcp.Stream.{IsPart, IsDelivered, copied, copied-IsPart, last_of}
use cs.Ctcp.Delivery.{ctcp_output-IsDelivered}

-- The checksum is computed and compared, and a mismatch is ignored.
unfoldable pub check_sum : Buf → Run ℕ
check_sum segment = do cleared ← store16 segment 18 0; len ← load_len segment; cksum cleared 0 len

-- A truncated segment gets the length that was received.
unfoldable pub cut : Buf → ℕ → Run Buf
cut segment len = do
  claimed ← load_len segment
  if ltb len claimed then store16 segment 8 (htons (len % 2 ^ 16)) else done segment

abbrev pub with_window : State → ℕ → State
with_window st window = record st { send_window = window }

module _ (to_uint32 : ℕ → ℕ) (space : List ℕ → ℕ) where
  unfoldable pub take_ack : State → Buf → ℕ → Run State
  take_ack st segment flags =
      if bit_and (htonl flags) ack_flag == 0
      then done st
      else (do ackno ← load32 segment 4; ackwipe to_uint32 st (htonl ackno))

  unfoldable pub take_fin : State → Buf → ℕ → Run State
  take_fin st segment flags =
      if bit_and (htonl flags) fin_flag == 0
      then done st
      else (do seqno ← load_seqno segment; done (record st { rx_fin = seqno }))

  abbrev pub with_segment : State → Buf → State
  with_segment st copy = record st { buffered = st.buffered ++ (copy ∷ []) }

  -- The data of the segment waits behind what waits already, and all that can go out does.
  unfoldable pub take_data : State → Buf → Run State
  take_data st segment = do
    len ← load_len segment
    let store : Run State = do
      copy ← wrapped_copy segment len
      ctcp_output space (with_segment st copy)
    if (len + 2 ^ 16 - 20) % 2 ^ 16 == 0 then done st else store

  unfoldable pub ctcp_receive : State → Buf → ℕ → Run State
  unfolding take_ack take_fin take_data check_sum cut
  ctcp_receive st segment len = do
    sum ← check_sum segment
    segment ← cut segment len
    window ← load16 segment 16
    flags ← load32 segment 12
    acked ← take_ack (with_window st (htons window)) segment flags
    finned ← take_fin acked segment flags
    take_data finned segment

-- What the receiver has of the stream did not change.
record Untouched (st st' : State) : Type 0 where
  buffered : st'.buffered ≡ st.buffered
  last : st'.last_output ≡ st.last_output
  output : st'.output ≡ st.output

IsDelivered-Untouched :
    (s : ℕ → ℕ) (st st' : State) → Untouched st st' → IsDelivered s st → IsDelivered s st'
IsDelivered-Untouched s st st' u d = record {
  part = rw u.last d.part;
  output = rw (u.output, u.last) d.output;
}

-- A segment that came whole; what it carries is a part of the stream `s`.
pub record IsFrom (s : ℕ → ℕ) (f : Buf) (len : ℕ) : Type 0 where
  pub bytes : HasBytes f
  pub header : 20 ≤ len_of f
  pub whole : len_of f ≤ len
  pub inside : len ≤ f.len
  pub first : 1 ≤ seqno_of f
  pub bound : seqno_of f + len_of f ≤ 2 ^ 31
  pub same : (j : ℕ) → j < len_of f - 20 → f.at (20 + j) ≡ s (seqno_of f + j)

-- A state that acknowledgements can be taken in.
pub record IsReady (st : State) : Type 0 where
  pub filter : IsFilter st.bbr
  pub unacked : All IsWhole st.unacked

more_data : (n : ℕ) → 20 ≤ n → n < 2 ^ 16 → ((n + 2 ^ 16 - 20) % 2 ^ 16 == 0) ≡ false → 20 < n
more_data n h k e = ground arith

module _ (to_uint32 : ℕ → ℕ) (space : List ℕ → ℕ) (s : ℕ → ℕ) (f : Buf) (len : ℕ)
    (v : IsFrom s f len) where
  check_sum-from : (c : ℕ) × (check_sum f ≡ done c)
  unfolding check_sum ◌>>=◌
  check_sum-from =
      let cleared : Buf = record f { at = patch f.at 18 2 (byte_of 0) } in
      let short : len_of f ≤ 0xffff = omega (arith, v.bytes 8, v.bytes 9) in
      let (c, e, _) =
        cksum-IsChecksum cleared 0 (len_of f)
          (patch-bytes f.at 18 2 (byte_of 0) v.bytes (byte_of-bytes 0)) short
          (omega (arith, v.whole, v.inside)) in
      let a : leb 20 f.len ≡ true = le→leb 20 f.len (omega (arith, v.header, v.whole, v.inside)) in
      let b : leb 10 f.len ≡ true = le→leb 10 f.len (omega (arith, v.header, v.whole, v.inside)) in
      (c, rw (a, b, e))

  cut-from : cut f len ≡ done f
  unfolding cut ◌>>=◌
  cut-from =
      let b : leb 10 f.len ≡ true = le→leb 10 f.len (omega (arith, v.header, v.whole, v.inside)) in
      let whole : ltb len (len_of f) ≡ false = ground (arith, v.whole) in rw (b, whole)

  take_ack-Untouched :
      (st : State) (flags : ℕ)
      → IsReady st
      → (st' : State) × (take_ack to_uint32 space st f flags ≡ done st') × Untouched st st'
  unfolding take_ack ◌>>=◌
  take_ack-Untouched st flags r =
      let a : leb 8 f.len ≡ true = le→leb 8 f.len (omega (arith, v.header, v.whole, v.inside)) in
      let n = htonl (word_at f 4) in
      let (c, e, _, _, _) = ackwipe-reaching to_uint32 st n r.filter r.unacked in
      elim (Bool-cases (bit_and (htonl flags) ack_flag == 0)) [
        | inl off ↦ (st, rw off, record { buffered = refl; last = refl; output = refl })
        | inr on ↦ (
          record st {
            bbr = c;
            unacked = reaching n st.unacked;
            receiver_has_acked = later st.receiver_has_acked n;
          },
          rw (on, a) e,
          record { buffered = refl; last = refl; output = refl },
        )
      ]

  take_fin-Untouched :
      (st : State) (flags : ℕ)
      → (st' : State) × (take_fin to_uint32 space st f flags ≡ done st') × Untouched st st'
  unfolding take_fin ◌>>=◌
  take_fin-Untouched st flags =
      let a : leb 4 f.len ≡ true = le→leb 4 f.len (omega (arith, v.header, v.whole, v.inside)) in
      elim (Bool-cases (bit_and (htonl flags) fin_flag == 0)) [
        | inl off ↦ (st, rw off, record { buffered = refl; last = refl; output = refl })
        | inr on ↦ (
          record st { rx_fin = seqno_of f },
          rw (on, a),
          record { buffered = refl; last = refl; output = refl },
        )
      ]

  copied-from : 20 < len_of f → IsPart s (copied f (len_of f))
  copied-from more =
      copied-IsPart s (record f { len = 24 + len_of f })
        (record { room = refl; payload = more; first = v.first; bound = v.bound; same = v.same })

  abbrev Onward : State → Run State → Type 0
  Onward st r =
      (st' : State) × (r ≡ done st')
      × IsDelivered s st'
      × (last_of st.last_output ≤ last_of st'.last_output)
      × All (IsPart s) st'.buffered

  take_data-Onward :
      (st : State)
      → IsDelivered s st
      → All (IsPart s) st.buffered
      → Onward st (take_data to_uint32 space st f)
  unfolding take_data ◌>>=◌
  take_data-Onward st d all =
      let a : leb 10 f.len ≡ true = le→leb 10 f.len (omega (arith, v.header, v.whole, v.inside)) in
      let b : leb (0 + len_of f) f.len ≡ true = le→leb _ f.len (omega (arith, v.whole, v.inside)) in
      let c : leb (0 + len_of f) (24 + len_of f) ≡ true = le→leb _ _ (omega arith) in
      elim (Bool-cases ((len_of f + 2 ^ 16 - 20) % 2 ^ 16 == 0)) [
        | inl none_left ↦ (st, rw (a, none_left), d, omega arith, all)
        | inr more ↦
            let part =
              copied-from
                (more_data (len_of f) v.header (omega (arith, v.bytes 8, v.bytes 9)) more) in
            let st1 = record st { buffered = st.buffered ++ (copied f (len_of f) ∷ []) } in
            let (st', e, d', on, all') =
              ctcp_output-IsDelivered space s st1
                (All-append (IsPart s) st.buffered (copied f (len_of f) ∷ []) all (part, tt))
                (record { part = d.part; output = d.output }) in
            (st', rw (a, more, b, c) e, d', on, all')
      ]

  -- The receiver's half of the transport, on a segment that came whole and carries a part of the
  -- stream, with numbers of 31 bits: when the sending half has its filter and complete segments,
  -- the output is the stream up to the last segment that went out and all waiting segments are
  -- parts of the stream, `ctcp_receive` returns, whatever the checksum, and output and segments
  -- stay so. No byte is lost, repeated or out of order, however segments are duplicated or
  -- reordered, and the output never goes back.
  pub ctcp_receive-IsDelivered :
      (st : State)
      → IsReady st
      → All (IsPart s) st.buffered
      → IsDelivered s st
      → (st' : State) × (ctcp_receive to_uint32 space st f len ≡ done st')
        × IsDelivered s st'
        × (last_of st.last_output ≤ last_of st'.last_output)
        × All (IsPart s) st'.buffered
  unfolding ctcp_receive ◌>>=◌
  ctcp_receive-IsDelivered st r all d =
      let a : leb 18 f.len ≡ true = le→leb 18 f.len (omega (arith, v.header, v.whole, v.inside)) in
      let b : leb 16 f.len ≡ true = le→leb 16 f.len (omega (arith, v.header, v.whole, v.inside)) in
      let st0 = with_window st (htons (half_at f 16)) in
      let (sum, e0) = check_sum-from in
      let (st1, e1, u1) =
        take_ack-Untouched st0 (word_at f 12) (record { filter = r.filter; unacked = r.unacked }) in
      let (st2, e2, u2) = take_fin-Untouched st1 (word_at f 12) in
      let d1 =
        IsDelivered-Untouched s st st1
          (record { buffered = u1.buffered; last = u1.last; output = u1.output }) d in
      let d2 = IsDelivered-Untouched s st1 st2 u2 d1 in
      let (st', e, d', on, all') = take_data-Onward st2 d2 (rw (u2.buffered, u1.buffered) all) in
      let same_last : st2.last_output ≡ st.last_output = u2.last ∙ u1.last in
      (st', rw (e0, cut-from, a, b, e1, e2) e, d', rw (sym same_last) on, all')
