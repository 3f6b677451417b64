-- ===== src/Ctcp/Ship.antt =====
-- `ship_tx_node` of ctcp.c: sending a segment for the first time or again. The time `now` is read once;
-- nothing is done about a segment that was sent too often.
use cs.Base.{
  ℕ, ◌+◌, ◌-◌, ◌%◌, ◌^◌, ◌≤◌, ◌≡◌, refl, ◌∷◌, ◌⊎◌, Bool, true, ◌||◌, not, ◌==◌, ltb, le→leb,
  if◌then◌else◌, arith, Run, done, ◌>>=◌, Bool-cases, inl, inr,
}
use cs.Bytes.{Buf, HasBytes, word_at, patch, byte_of, store16, store32, copy_of, htonl}
use cs.Checksum.{cksum}
use cs.Checksum.Laws.{cksum-IsChecksum}
use cs.Checksum.Header.{patch-bytes, byte_of-bytes}
use cs.Ctcp.State.{State, Wrapped, seqno_of, len_of, load_seqno, load_len, end_of}
use cs.Ctcp.Ack.{net_round}
use cs.Ctcp.Sender.{last_byte}

-- The segment and the state afterwards.
abbrev pub Shipped : Type 0
Shipped = Wrapped × State

-- Room in the window of the receiver, with 50 bytes to spare.
abbrev pub has_room : State → Bool
has_room st =
    ltb ((st.seqno_last_shipped + 2 ^ 64 - st.receiver_has_acked) % 2 ^ 64) (st.send_window + 50)

abbrev pub xmitted : State → Wrapped → Buf → ℕ → Wrapped
xmitted st w segment now = record w {
  segment = segment;
  last_send = now;
  actual_sendtime = if w.num_xmits == 0 then now else w.actual_sendtime;
  bytes_acked = if w.num_xmits == 0 then st.receiver_has_acked else w.bytes_acked;
  num_xmits = (w.num_xmits + 1) % 2 ^ 32;
}

abbrev pub shipped : State → Buf → ℕ → State
shipped st frame last = record st {
  sent = frame ∷ st.sent;
  seqno_last_shipped = if ltb st.seqno_last_shipped last then last else st.seqno_last_shipped;
}

-- The checksum is taken over the segment as it stands, before the acknowledgement is put in.
unfoldable pub stamp : State → Buf → ℕ → Run Buf
stamp st segment len = do
  sum ← cksum segment 0 len
  s ← store16 segment 18 sum
  store32 s 4 (htonl (st.next_ackno % 2 ^ 32))

unfoldable pub transmit_node : State → Wrapped → ℕ → Run Shipped
unfolding stamp
transmit_node st w now = do
  seqno ← load_seqno w.segment
  len ← load_len w.segment
  segment ← stamp st w.segment len
  frame ← copy_of segment len
  done (xmitted st w segment now, shipped st frame (end_of seqno len))

unfoldable pub ship_tx_node : State → Wrapped → ℕ → Run Shipped
unfolding transmit_node
ship_tx_node st w now =
    if ltb now (w.last_send + st.rt_timeout)
    then done (w, st)
    else if has_room st
    then transmit_node st w now
    else done (w, st)

-- A segment that is complete in its block.
pub record IsSendable (w : Wrapped) : Type 0 where
  pub bytes : HasBytes w.segment
  pub header : 20 ≤ len_of w.segment
  pub inside : len_of w.segment ≤ w.segment.len

-- The frame `g` for the segment: as it stands, but for the acknowledgement and the checksum.
pub record IsShipped (st : State) (w : Wrapped) (g : Buf) : Type 0 where
  pub length : g.len ≡ len_of w.segment
  pub seqno : seqno_of g ≡ seqno_of w.segment
  pub len_field : len_of g ≡ len_of w.segment
  pub acks : htonl (word_at g 4) ≡ st.next_ackno % 2 ^ 32
  pub bytes : HasBytes g
  pub rest : (i : ℕ) → 20 ≤ i → g.at i ≡ w.segment.at i

abbrev stamped : State → Buf → ℕ → Buf
stamped st b c = record b {
  at = patch (patch b.at 18 2 (byte_of c)) 4 4 (byte_of (htonl (st.next_ackno % 2 ^ 32)));
}

module _ (st : State) (w : Wrapped) (now : ℕ) (v : IsSendable w) where
  transmit_node-IsShipped :
      (segment g : Buf) × (transmit_node st w now
        ≡ done (xmitted st w segment now, shipped st g (last_byte w)))
      × (g.at ≡ segment.at)
      × (segment.len ≡ w.segment.len)
      × IsShipped st w g
  unfolding transmit_node stamp ◌>>=◌
  transmit_node-IsShipped =
      let b = w.segment in
      let n = len_of b in
      let short : n ≤ 0xffff = omega (arith, v.bytes 8, v.bytes 9) in
      let (c, e, _) = cksum-IsChecksum b 0 n v.bytes short (omega (arith, v.inside)) in
      (
        stamped st b c,
        record (stamped st b c) { len = n },
        rw (
          le→leb 4 b.len (omega (arith, v.header, v.inside)),
          le→leb 10 b.len (omega (arith, v.header, v.inside)),
          e,
          le→leb 20 b.len (omega (arith, v.header, v.inside)),
          le→leb 8 b.len (omega (arith, v.header, v.inside)),
          le→leb (0 + n) b.len (omega (arith, v.inside)),
        ),
        refl,
        refl,
        record {
          length = refl;
          seqno = refl;
          len_field = refl;
          acks = net_round (st.next_ackno % 2 ^ 32) (omega arith);
          bytes =
              patch-bytes _ 4 4 _ (patch-bytes b.at 18 2 (byte_of c) v.bytes (byte_of-bytes c))
                (byte_of-bytes (htonl (st.next_ackno % 2 ^ 32)));
          rest = λ i far. ground arith;
        },
      )

  -- A complete segment is left alone while its timeout runs or the receiver's window is full. Else it is
  -- sent, whole, once, with the number to acknowledge in it, and the largest number sent, the time and the
  -- count of the segment follow.
  pub ship_tx_node-IsShipped :
      ((ltb now (w.last_send + st.rt_timeout) || not (has_room st)) ≡ true
        × (ship_tx_node st w now ≡ done (w, st)))
      ⊎ ((segment g : Buf) × (ship_tx_node st w now
            ≡ done (xmitted st w segment now, shipped st g (last_byte w)))
          × (g.at ≡ segment.at)
          × (segment.len ≡ w.segment.len)
          × IsShipped st w g)
  unfolding ship_tx_node
  ship_tx_node-IsShipped = elim (Bool-cases (ltb now (w.last_send + st.rt_timeout))) [
    | inl early ↦ inl (rw early, rw early)
    | inr due ↦ elim (Bool-cases (has_room st)) [
      | inl room ↦
          let (segment, g, e, same, size, is) = transmit_node-IsShipped in
          inr (segment, g, rw (due, room) e, same, size, is)
      | inr full ↦ inl (rw (due, full), rw (due, full))
    ]
  ]
