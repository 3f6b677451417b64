-- ===== src/Ctcp/Sender.antt =====
-- `ackwipe__tx_segments_unacked` of ctcp.c: what an acknowledgement does to the segments that wait for it.
use cs.Base.{
  ℕ, ◌+◌, ◌-◌, ◌%◌, ◌^◌, ◌≤◌, ◌≡◌, refl, List, [], ◌∷◌, Bool, true, false, ◌==◌, ltb, leb, le→leb,
  if◌then◌else◌, arith, All, Run, done, ◌>>=◌, Bool-cases, inl, inr,
}
use cs.Ctcp.State.{State, Wrapped, Bbr, seqno_of, len_of, load_seqno, load_len, end_of}
use cs.Ctcp.Bbr.{add_sample, IsFilter, add_sample-IsFilter}

abbrev pub keep_unacked : Bool → Wrapped → Bbr × List Wrapped → Bbr × List Wrapped
keep_unacked true w out = out
keep_unacked false w (b, rest) = (b, w ∷ rest)

abbrev wiped : State → ℕ → Bbr × List Wrapped → State
wiped st acked (b, rest) = record st { bbr = b; unacked = rest; receiver_has_acked = acked }

abbrev pub later : ℕ → ℕ → ℕ
later acked ackno = if ltb acked ackno then ackno else acked

module _ (to_uint32 : ℕ → ℕ) where
  -- The segment whose last byte is the last one acknowledged gives a sample: what was acknowledged since
  -- it was first sent.
  unfoldable pub sample : Bbr → Wrapped → ℕ → ℕ → Run Bbr
  sample b w last ackno =
      if last == (ackno + 2 ^ 32 - 1) % 2 ^ 32
      then add_sample to_uint32 b ((ackno + 2 ^ 64 - w.bytes_acked) % 2 ^ 32)
      else done b

  -- A segment goes when its last byte is below the number expected next.
  unfoldable pub wipe_loop : ℕ → Bbr → List Wrapped → Run (Bbr × List Wrapped)
  unfolding sample
  wipe_loop ackno b [] = done (b, [])
  wipe_loop ackno b (w ∷ ws) = do
    seqno ← load_seqno w.segment
    len ← load_len w.segment
    b' ← sample b w (end_of seqno len) ackno
    rest ← wipe_loop ackno b' ws
    done (keep_unacked (ltb (end_of seqno len) ackno) w rest)

  unfoldable pub ackwipe : State → ℕ → Run State
  unfolding wipe_loop
  ackwipe st ackno = do
    out ← wipe_loop ackno st.bbr st.unacked
    done (wiped st (later st.receiver_has_acked ackno) out)

-- What was sent and waits for its acknowledgement.
pub record IsWhole (w : Wrapped) : Type 0 where
  pub header : 20 ≤ w.segment.len

abbrev pub last_byte : Wrapped → ℕ
last_byte w = end_of (seqno_of w.segment) (len_of w.segment)

-- The segments of `ws` that reach `ackno`, in their order.
unfoldable pub reaching : ℕ → List Wrapped → List Wrapped
reaching ackno [] = []
reaching ackno (w ∷ ws) =
    if leb ackno (last_byte w) then w ∷ reaching ackno ws else reaching ackno ws

keep-reaching :
    (ackno last : ℕ) (w : Wrapped) (b : Bbr) (rest : List Wrapped)
    → done (keep_unacked (ltb last ackno) w (b, rest))
      ≡ done (b, if leb ackno last then w ∷ rest else rest)
keep-reaching ackno last w b rest = ground arith

module _ (to_uint32 : ℕ → ℕ) where
  sample-IsFilter :
      (b : Bbr) (w : Wrapped) (last ackno : ℕ)
      → IsFilter b
      → (c : Bbr) × (sample to_uint32 b w last ackno ≡ done c) × IsFilter c
  unfolding sample
  sample-IsFilter b w last ackno f = elim (Bool-cases (last == (ackno + 2 ^ 32 - 1) % 2 ^ 32)) [
    | inl hit ↦ rw hit (add_sample-IsFilter to_uint32 b _ f)
    | inr miss ↦ rw miss (b, refl, f)
  ]

  wipe_loop-reaching :
      (ackno : ℕ) (b : Bbr) (ws : List Wrapped)
      → IsFilter b
      → All IsWhole ws
      → (c : Bbr) × (wipe_loop to_uint32 ackno b ws ≡ done (c, reaching ackno ws)) × IsFilter c
  unfolding wipe_loop reaching ◌>>=◌
  wipe_loop-reaching ackno b [] f all = (b, refl, f)
  wipe_loop-reaching ackno b (w ∷ ws) f all =
      let a : leb 4 w.segment.len ≡ true = le→leb 4 w.segment.len (omega (arith, all.0.header)) in
      let d : leb 10 w.segment.len ≡ true = le→leb 10 w.segment.len (omega (arith, all.0.header)) in
      let (c, e, g) = sample-IsFilter b w (last_byte w) ackno f in
      let (c', e', g') = wipe_loop-reaching ackno c ws g all.1 in
      (c', rw (a, d, e, e') (keep-reaching ackno (last_byte w) w c' (reaching ackno ws)), g')

  -- With a filter of ten places and complete segments an acknowledgement of `ackno` always returns:
  -- of the segments that wait it leaves those that reach `ackno`, in their order, the largest
  -- number acknowledged never falls, the bandwidth filter keeps its ten places, and nothing else
  -- changes.
  pub ackwipe-reaching :
      (st : State) (ackno : ℕ)
      → IsFilter st.bbr
      → All IsWhole st.unacked
      → (c : Bbr) × (ackwipe to_uint32 st ackno
          ≡ done (record st {
            bbr = c;
            unacked = reaching ackno st.unacked;
            receiver_has_acked = later st.receiver_has_acked ackno;
          }))
        × IsFilter c
        × (st.receiver_has_acked ≤ later st.receiver_has_acked ackno)
        × (ackno ≤ later st.receiver_has_acked ackno)
  unfolding ackwipe ◌>>=◌
  ackwipe-reaching st ackno f all =
      let (c, e, g) = wipe_loop-reaching ackno st.bbr st.unacked f all in
      (c, rw e, g, ground arith, ground arith)
