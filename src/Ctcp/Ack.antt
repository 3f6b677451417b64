-- ===== src/Ctcp/Ack.antt =====
-- `ship_ack` of ctcp.c.
use cs.Base.{
  ℕ, ◌+◌, ◌*◌, ◌%◌, ◌^◌, ◌<◌, ◌≡◌, refl, ◌∷◌, ◌==◌, if◌then◌else◌, arith, Run, done, ◌>>=◌,
  Bool-cases, inl, inr, bit_and,
}
use cs.Bytes.{
  Buf, HasBytes, word_at, half_at, patch, byte_of, store16, store32, zeroed, htons, htonl,
}
use cs.Checksum.{cksum}
use cs.Checksum.Laws.{IsSummed, word_sum, cksum-IsChecksum}
use cs.Checksum.Header.{patch-bytes, byte_of-bytes, word_round}
use cs.Ctcp.State.{State, header_len, ack_flag, fin_flag, seqno_of, len_of}

-- The flags of the segment: after an end of file they are turned round once more.
abbrev pub flags_for : ℕ → ℕ
flags_for tx_eof = if tx_eof == 100 then htonl (htonl ack_flag) else htonl ack_flag

abbrev pub with_sent : State → Buf → ℕ → State
with_sent st b ackno = record st { sent = b ∷ st.sent; next_ackno = ackno }

unfoldable pub ack_segment : State → ℕ → Run Buf
ack_segment st ackno = do
  a ← store32 (zeroed header_len) 0 (htonl ((st.seqno_last_shipped + 1) % 2 ^ 32))
  a ← store16 a 8 (htons header_len)
  a ← store32 a 4 (htonl ackno)
  a ← store32 a 12 (flags_for st.tx_eof)
  a ← store16 a 16 (htons (st.recv_window % 2 ^ 16))
  a ← store16 a 18 0
  sum ← cksum a 0 header_len
  store16 a 18 sum

unfoldable pub ship_ack : State → ℕ → Run State
ship_ack st ackno = do a ← ack_segment st ackno; done (with_sent st a ackno)

-- The segment before its checksum.
abbrev drafted : State → ℕ → Buf
drafted st ackno =
    let a =
      patch (patch (λ i. 0) 0 4 (byte_of (htonl ((st.seqno_last_shipped + 1) % 2 ^ 32)))) 8 2
        (byte_of (htons header_len)) in
    let b = patch (patch a 4 4 (byte_of (htonl ackno))) 12 4 (byte_of (flags_for st.tx_eof)) in
    record {
      len = header_len;
      at = patch (patch b 16 2 (byte_of (htons (st.recv_window % 2 ^ 16)))) 18 2 (byte_of 0);
    }

abbrev summed : Buf → ℕ → Buf
summed b c = record b { at = patch b.at 18 2 (byte_of c) }

drafted-HasBytes : (st : State) (ackno : ℕ) → HasBytes (drafted st ackno)
drafted-HasBytes st ackno =
    let store = λ (old : ℕ → ℕ) (off n v : ℕ) (h : (i : ℕ) → old i < 256).
      patch-bytes old off n (byte_of v) h (byte_of-bytes v) in
    store _ 18 2 0 (
      store _ 16 2 (htons (st.recv_window % 2 ^ 16)) (
        store _ 12 4 (flags_for st.tx_eof) (
          store _ 4 4 (htonl ackno) (
            store _ 8 2 (htons header_len)
              (store _ 0 4 (htonl ((st.seqno_last_shipped + 1) % 2 ^ 32)) (λ i. omega arith))))))

word_sum-summed :
    (b : Buf) (c : ℕ)
    → b.at 18 ≡ 0
    → b.at 19 ≡ 0
    → word_sum (summed b c) 0 20 ≡ word_sum b 0 20 + htons c
unfolding word_sum
word_sum-summed b c h k = omega arith

-- The acknowledgement `g` of a connection.
pub record IsAck (st : State) (ackno : ℕ) (g : Buf) : Type 0 where
  pub length : g.len ≡ 20
  pub len_field : len_of g ≡ 20
  pub seqno : seqno_of g ≡ (st.seqno_last_shipped + 1) % 2 ^ 32
  pub acks : htonl (word_at g 4) ≡ ackno
  pub flags : word_at g 12 ≡ flags_for st.tx_eof
  pub window : htons (half_at g 16) ≡ st.recv_window % 2 ^ 16
  pub sums : IsSummed g 0 20

pub net_round :
    (v : ℕ)
    → v < 2 ^ 32
    → let w = htonl v in
      htonl (byte_of w 0 + byte_of w 1 * 256 + byte_of w 2 * 2 ^ 16 + byte_of w 3 * 2 ^ 24) ≡ v
net_round v h = omega arith

pub net_round16 :
    (v : ℕ) → v < 2 ^ 16 → let w = htons v in htons (byte_of w 0 + byte_of w 1 * 256) ≡ v
net_round16 v h = omega arith

-- `ship_ack` always returns. It sends one segment with no data, a right checksum, the number that was
-- asked for and the window, and changes nothing else but the next number to acknowledge.
pub ship_ack-IsAck :
    (st : State) (ackno : ℕ)
    → ackno < 2 ^ 32
    → (g : Buf) × (ship_ack st ackno ≡ done (with_sent st g ackno)) × IsAck st ackno g
unfolding ship_ack ack_segment word_sum ◌>>=◌
ship_ack-IsAck st ackno h =
    let b = drafted st ackno in
    let (c, e, k) =
      cksum-IsChecksum b 0 20 (drafted-HasBytes st ackno) (omega arith) (omega arith) in
    (
      summed b c,
      rw e,
      record {
        length = refl;
        len_field = refl;
        seqno = net_round ((st.seqno_last_shipped + 1) % 2 ^ 32) (omega arith);
        acks = net_round ackno h;
        flags = word_round (flags_for st.tx_eof) (ground arith);
        window = net_round16 (st.recv_window % 2 ^ 16) (omega arith);
        sums = rw (word_sum-summed b c refl refl) k.cancels;
      },
    )

-- A receiver finds no FIN in the segment, not even after the end of the input, and it finds the ACK in it
-- except after the end of the input.
pub ship_ack-flags :
    (st : State) (ackno : ℕ)
    → ackno < 2 ^ 32
    → (g : Buf) × (ship_ack st ackno ≡ done (with_sent st g ackno))
      × (bit_and (htonl (word_at g 12)) fin_flag ≡ 0)
      × ((bit_and (htonl (word_at g 12)) ack_flag == 0) ≡ (st.tx_eof == 100))
ship_ack-flags st ackno h =
    let (g, e, is) = ship_ack-IsAck st ackno h in
    elim (Bool-cases (st.tx_eof == 100)) [
      | inl over ↦ (g, e, rw (is.flags, over), rw (is.flags, over))
      | inr open_yet ↦ (g, e, rw (is.flags, open_yet), rw (is.flags, open_yet))
    ]
