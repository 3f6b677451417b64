-- ===== src/Ctcp/Read/Cut.antt =====
-- The segments that `ctcp_read` cuts from a stream of bytes that are numbered from 1.
use mathlib.Core.Path.{subst}
use mathlib.Core.List.{append-nil, append_assoc}
use cs.Base.{
  ℕ, ◌+◌, ◌-◌, ◌%◌, ◌^◌, ◌≤◌, ◌<◌, ◌≡◌, refl, List, [], ◌∷◌, ◌++◌, Option, some, arith, Run, done,
  ◌>>=◌, leb, lt→ltb, le→leb, true, ap, ◌∙◌, sym,
}
use cs.Bytes.{Buf, HasBytes, patch, byte_of, htons, htonl}
use cs.Checksum.Header.{patch-bytes, byte_of-bytes}
use cs.Ctcp.State.{State, Wrapped, header_len, ack_flag, seqno_of, len_of}
use cs.Ctcp.Ack.{net_round, net_round16}
use cs.Ctcp.Stream.{
  IsPart, copied, copied-at, copied-seqno, copied-len, load_seqno-part, load_len-part,
}
use cs.Ctcp.Read.{
  Input, got, nothing, eof, Reader, next_seqno, tx_segment, fresh_wrapped, with_added, add_segment,
  read_loop,
}

-- The bytes from number `p` of the stream `s`, as much as a segment takes.
pub record IsChunk (s : ℕ → ℕ) (p : ℕ) (b : Buf) : Type 0 where
  pub bytes : HasBytes b
  pub some_bytes : 0 < b.len
  pub few : b.len ≤ 1440
  pub first : 1 ≤ p
  pub bound : p + b.len + 20 ≤ 2 ^ 31
  pub same : (j : ℕ) → j < b.len → b.at j ≡ s (p + j)

-- The segment before it is copied into its wrapper.
abbrev drafted : (ℕ → ℕ) → State → ℕ → Buf → Buf
drafted junk st p b =
    let n = header_len + b.len in
    let h =
      patch (patch (patch junk 0 4 (byte_of (htonl p))) 8 2 (byte_of (htons n))) 12 4
        (byte_of (htonl ack_flag)) in
    record {
      len = n;
      at =
          patch (patch (patch h 16 2 (byte_of (htons (st.recv_window % 2 ^ 16)))) 18 2 (byte_of 0))
            header_len b.len (λ i. b.at (0 + i));
    }

module _ (junk : ℕ → ℕ) (s : ℕ → ℕ) (st : State) (p : ℕ) (b : Buf) (c : IsChunk s p b) where
  drafted-seqno : seqno_of (drafted junk st p b) ≡ p
  drafted-seqno = net_round p (omega (arith, c.bound))

  drafted-len : len_of (drafted junk st p b) ≡ header_len + b.len
  drafted-len = net_round16 (header_len + b.len) (omega (arith, c.few))

  drafted-at : (j : ℕ) → j < b.len → (drafted junk st p b).at (20 + j) ≡ b.at j
  drafted-at j h =
      let i : leb 20 (20 + j) ≡ true = le→leb 20 (20 + j) (omega arith) in
      let e : 0 + (20 + j - 20) ≡ j = omega arith in
      rw (i, lt→ltb (20 + j) (20 + b.len) (omega arith), e)

  abbrev cut_segment : Buf
  cut_segment = copied (drafted junk st p b) (header_len + b.len)

  tx_segment-cut : tx_segment junk st p b ≡ done cut_segment
  unfolding tx_segment ◌>>=◌
  tx_segment-cut = rw (
    le→leb 4 (header_len + b.len) (omega arith),
    le→leb 10 (header_len + b.len) (omega arith),
    le→leb 16 (header_len + b.len) (omega arith),
    le→leb 18 (header_len + b.len) (omega arith),
    le→leb 20 (header_len + b.len) (omega arith),
    le→leb (0 + b.len) b.len (omega arith),
    le→leb (header_len + b.len) (header_len + b.len) (omega arith),
    le→leb (0 + (header_len + b.len)) (header_len + b.len) (omega arith),
    le→leb (0 + (header_len + b.len)) (24 + (header_len + b.len)) (omega arith),
  )

  cut-seqno : seqno_of cut_segment ≡ p
  cut-seqno =
      copied-seqno (drafted junk st p b) (header_len + b.len) (omega (arith, c.some_bytes))
      ∙ drafted-seqno

  cut-len : len_of cut_segment ≡ header_len + b.len
  cut-len =
      copied-len (drafted junk st p b) (header_len + b.len) (omega (arith, c.some_bytes))
      ∙ drafted-len

  cut-IsPart : IsPart s cut_segment
  cut-IsPart = record {
    room = rw cut-len refl;
    payload = rw cut-len (omega (arith, c.some_bytes));
    first = rw cut-seqno c.first;
    bound = rw (cut-seqno, cut-len) (omega (arith, c.bound));
    same = λ j h.
        let k : j < b.len = omega (arith, cut-len) in
        copied-at (drafted junk st p b) (header_len + b.len) (20 + j) (omega arith)
        ∙ drafted-at j k
        ∙ c.same j k
        ∙ ap (λ (q : ℕ). s (q + j)) (sym cut-seqno);
  }

  cut-HasBytes : ((i : ℕ) → junk i < 256) → HasBytes cut_segment
  cut-HasBytes whole =
      let store = λ (old : ℕ → ℕ) (off n v : ℕ) (h : (i : ℕ) → old i < 256).
        patch-bytes old off n (byte_of v) h (byte_of-bytes v) in
      patch-bytes (λ i. 0) 0 (header_len + b.len) _ (λ i. omega arith)
        (λ i.
          patch-bytes _ header_len b.len _
            (store _ 18 2 0 (
              store _ 16 2 (htons (st.recv_window % 2 ^ 16)) (
                store _ 12 4 (htonl ack_flag)
                  (store _ 8 2 (htons (header_len + b.len)) (store _ 0 4 (htonl p) whole)))))
            (λ k. c.bytes (0 + k)) (0 + i))

-- The segments `ws` carry the stream from number `p` on, one behind the other.
abbrev pub Follows : (ℕ → ℕ) → ℕ → List Wrapped → Type 0
Follows s p [] = Unit
Follows s p (w ∷ ws) =
    IsPart s w.segment
    × HasBytes w.segment
    × (seqno_of w.segment ≡ p)
    × Follows s (p + len_of w.segment - 20) ws

-- The number behind the last of them.
abbrev pub behind : ℕ → List Wrapped → ℕ
behind p [] = p
behind p (w ∷ ws) = behind (p + len_of w.segment - 20) ws

-- The reports of `conn_input` carry the stream from number `p` on.
abbrev pub Carries : (ℕ → ℕ) → ℕ → List Input → Type 0
Carries s p [] = Unit
Carries s p (nothing ∷ rest) = Unit
Carries s p (eof ∷ rest) = Unit
Carries s p (got b ∷ rest) = IsChunk s p b × Carries s (p + b.len) rest

-- How many bytes they bring, and the report that ends the loop.
abbrev pub total : List Input → ℕ
total [] = 0
total (nothing ∷ rest) = 0
total (eof ∷ rest) = 0
total (got b ∷ rest) = b.len + total rest

abbrev pub ending : List Input → Input
ending [] = nothing
ending (nothing ∷ rest) = nothing
ending (eof ∷ rest) = eof
ending (got b ∷ rest) = ending rest

-- The next segment starts at number `p`.
abbrev pub Starts : Option (Run Buf) → ℕ → Type 0
Starts o p = next_seqno o ≡ done p

abbrev pub with_more : State → List Wrapped → State
with_more st ws = record st { unacked = st.unacked ++ ws }

module _ (junk : ℕ → ℕ) (whole : (i : ℕ) → junk i < 256) (s : ℕ → ℕ) where
  add_segment-cut :
      (r : Reader) (p : ℕ) (b : Buf) (c : IsChunk s p b)
      → Starts r.last_added p
      → add_segment junk r b ≡ done (with_added r (cut_segment junk s r.conn p b c))
  unfolding add_segment ◌>>=◌
  add_segment-cut r p b c e = rw (e, tx_segment-cut junk s r.conn p b c)

  cut-Starts :
      (st : State) (p : ℕ) (b : Buf) (c : IsChunk s p b)
      → Starts (some (done (cut_segment junk s st p b c))) (p + b.len)
  unfolding next_seqno ◌>>=◌
  cut-Starts st p b c =
      let v = cut-IsPart junk s st p b c in
      rw
        (
          load_seqno-part s _ v,
          load_len-part s _ v,
          cut-seqno junk s st p b c,
          cut-len junk s st p b c,
        )
        (ap done (omega (arith, c.bound)))

  -- What the loop adds to the state.
  pub record IsRead (r : Reader) (p q : ℕ) (r' : Reader) (ws : List Wrapped) : Type 0 where
    pub conn : r'.conn ≡ with_more r.conn ws
    pub follows : Follows s p ws
    pub reach : behind p ws ≡ q
    pub starts : Starts r'.last_added q

  no_chunk : (r : Reader) (p : ℕ) → Starts r.last_added p → IsRead r p (p + 0) r []
  no_chunk r p e = record {
    conn =
        ap (λ (u : List Wrapped). record r.conn { unacked = u }) (sym (append-nil r.conn.unacked));
    follows = tt;
    reach = omega arith;
    starts = e ∙ ap done (omega arith);
  }

  one_chunk :
      (r : Reader) (p : ℕ) (b : Buf) (c : IsChunk s p b) (rest : List Input) (r' : Reader)
      (ws : List Wrapped)
      → IsRead
          (with_added r (cut_segment junk s r.conn p b c))
          (p + b.len)
          (p + b.len + total rest)
          r'
          ws
      → IsRead r p
          (p + (b.len + total rest))
          r'
          (fresh_wrapped (cut_segment junk s r.conn p b c) ∷ ws)
  one_chunk r p b c rest r' ws k =
      let seg = cut_segment junk s r.conn p b c in
      let onward : p + b.len ≡ p + len_of seg - 20 = omega (arith, cut-len junk s r.conn p b c) in
      record {
        conn =
            k.conn
            ∙ ap (λ (u : List Wrapped). record r.conn { unacked = u })
                (append_assoc r.conn.unacked (fresh_wrapped seg ∷ []) ws);
        follows = (
          cut-IsPart junk s r.conn p b c,
          cut-HasBytes junk s r.conn p b c whole,
          cut-seqno junk s r.conn p b c,
          subst (λ (q : ℕ). Follows s q ws) onward k.follows,
        );
        reach = ap (λ (q : ℕ). behind q ws) (sym onward) ∙ k.reach ∙ omega arith;
        starts = k.starts ∙ ap done (omega arith);
      }

  -- From a state whose next segment starts at number `p`, and reports of at most 1440 bytes each that carry
  -- the stream from there, the loop of ctcp_read ends without fault. It appends to the segments that wait
  -- segments that carry these bytes, all of them, in order and without a gap; the next segment starts behind
  -- them, and nothing else in the connection changes. This holds whatever memory `malloc` returns.
  pub read_loop-Follows :
      (inputs : List Input) (r : Reader) (p : ℕ)
      → Carries s p inputs
      → Starts r.last_added p
      → (r' : Reader) × (ws : List Wrapped) × (read_loop junk r inputs ≡ done (r', ending inputs))
        × IsRead r p (p + total inputs) r' ws
  unfolding read_loop ◌>>=◌
  read_loop-Follows [] r p c e = (r, [], refl, no_chunk r p e)
  read_loop-Follows (nothing ∷ rest) r p c e = (r, [], refl, no_chunk r p e)
  read_loop-Follows (eof ∷ rest) r p c e = (r, [], refl, no_chunk r p e)
  read_loop-Follows (got b ∷ rest) r p c e =
      let seg = cut_segment junk s r.conn p b c.0 in
      let (r', ws, run, k) =
        read_loop-Follows rest (with_added r seg) (p + b.len) c.1 (cut-Starts r.conn p b c.0) in
      (
        r',
        fresh_wrapped seg ∷ ws,
        rw (add_segment-cut r p b c.0 e) run,
        one_chunk r p b c.0 rest r' ws k,
      )
