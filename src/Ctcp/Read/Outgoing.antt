-- ===== src/Ctcp/Read/Outgoing.antt =====
-- What `ship_tx_node` and `tx_flush_conn` of ctcp.c make of the segments that `ctcp_read` cut.
use mathlib.Core.Path.{subst}
use mathlib.Core.List.{append_assoc}
use cs.Base.{
  ℕ, ◌+◌, ◌-◌, ◌≤◌, ◌<◌, ◌≡◌, refl, Bool, false, some, List, [], ◌∷◌, ◌++◌, arith, All, All-append,
  done, ◌>>=◌, inl, inr, ap, ◌∙◌, sym,
}
use cs.Bytes.{Buf, HasBytes}
use cs.Ctcp.State.{State, Wrapped, seqno_of, len_of}
use cs.Ctcp.Stream.{IsPart}
use cs.Ctcp.Sender.{last_byte}
use cs.Ctcp.Ship.{xmitted, shipped, IsSendable, IsShipped, ship_tx_node-IsShipped}
use cs.Ctcp.Flush.{with_unacked, ship_all, send_eof, close_input, tear_down, tx_flush_conn}
use cs.Ctcp.Receive.{IsFrom}
use cs.Ctcp.Read.{Input, Reader, ended, with_end, ctcp_read}
use cs.Ctcp.Read.Cut.{Follows, Carries, Starts, total, ending, read_loop-Follows}

-- A segment of the stream that waits for its acknowledgement.
pub record IsOutgoing (s : ℕ → ℕ) (w : Wrapped) : Type 0 where
  pub part : IsPart s w.segment
  pub bytes : HasBytes w.segment

module _ (s : ℕ → ℕ) where
  pub Follows-IsOutgoing : (p : ℕ) (ws : List Wrapped) → Follows s p ws → All (IsOutgoing s) ws
  Follows-IsOutgoing p [] f = tt
  Follows-IsOutgoing p (w ∷ ws) f =
      (record { part = f.0; bytes = f.1 }, Follows-IsOutgoing (p + len_of w.segment - 20) ws f.3)

  outgoing-IsSendable : (w : Wrapped) → IsOutgoing s w → IsSendable w
  outgoing-IsSendable w o = record {
    bytes = o.bytes;
    header = omega (arith, o.part.payload);
    inside = omega (arith, o.part.room);
  }

  abbrev pub IsFrame : Buf → Type 0
  IsFrame g = IsFrom s g g.len

  shipped-IsFrom :
      (st : State) (w : Wrapped) (g : Buf) → IsOutgoing s w → IsShipped st w g → IsFrame g
  shipped-IsFrom st w g o k =
      let p = o.part in
      record {
        bytes = k.bytes;
        header = rw k.len_field (omega (arith, p.payload));
        whole = omega (arith, k.len_field, k.length);
        inside = omega arith;
        first = rw k.seqno p.first;
        bound = rw (k.seqno, k.len_field) p.bound;
        same = λ j h.
            k.rest (20 + j) (omega arith)
            ∙ p.same j (rw k.len_field at h)
            ∙ ap (λ (q : ℕ). s (q + j)) (sym k.seqno);
      }

  IsPart-same :
      (b c : Buf)
      → c.len ≡ b.len
      → seqno_of c ≡ seqno_of b
      → len_of c ≡ len_of b
      → ((i : ℕ) → 20 ≤ i → c.at i ≡ b.at i)
      → IsPart s b
      → IsPart s c
  IsPart-same b c size seqno len rest p = record {
    room = size ∙ p.room ∙ ap (λ (n : ℕ). 24 + n) (sym len);
    payload = rw len p.payload;
    first = rw seqno p.first;
    bound = rw (seqno, len) p.bound;
    same = λ j h.
        rest (20 + j) (omega arith)
        ∙ p.same j (rw len at h)
        ∙ ap (λ (q : ℕ). s (q + j)) (sym seqno);
  }

  -- The segment stays a segment of the stream when it is sent.
  xmitted-IsOutgoing :
      (st : State) (w : Wrapped) (now : ℕ) (segment g : Buf)
      → IsOutgoing s w
      → g.at ≡ segment.at
      → segment.len ≡ w.segment.len
      → IsShipped st w g
      → IsOutgoing s (xmitted st w segment now)
  xmitted-IsOutgoing st w now segment g o same size k =
      let on : (ℕ → ℕ) → Buf = λ h. record { len = segment.len; at = h } in
      record {
        part =
            IsPart-same w.segment segment size
              (ap (λ (h : ℕ → ℕ). seqno_of (on h)) (sym same) ∙ k.seqno)
              (ap (λ (h : ℕ → ℕ). len_of (on h)) (sym same) ∙ k.len_field)
              (λ i far. ap (λ (h : ℕ → ℕ). h i) (sym same) ∙ k.rest i far) o.part;
        bytes = subst (λ (h : ℕ → ℕ). (i : ℕ) → h i < 256) same k.bytes;
      }

  -- The frames `gs` were sent.
  pub record IsSent (st st' : State) (gs : List Buf) (ws' : List Wrapped) : Type 0 where
    pub sent : st'.sent ≡ gs ++ st.sent
    pub frames : All IsFrame gs
    pub outgoing : All (IsOutgoing s) ws'
    pub tx_eof : st'.tx_eof ≡ st.tx_eof
    pub rx_fin : st'.rx_fin ≡ st.rx_fin

  pub ship_all-IsSent :
      (now : ℕ) (st : State) (ws : List Wrapped)
      → All (IsOutgoing s) ws
      → (ws' : List Wrapped) × (st' : State) × (gs : List Buf) × (ship_all now st ws
          ≡ done (ws', st'))
        × IsSent st st' gs ws'
  unfolding ship_all ◌>>=◌
  ship_all-IsSent now st [] all = (
    [],
    st,
    [],
    refl,
    record { sent = refl; frames = tt; outgoing = tt; tx_eof = refl; rx_fin = refl },
  )
  ship_all-IsSent now st (w ∷ ws) all =
      elim (ship_tx_node-IsShipped st w now (outgoing-IsSendable w all.0)) [
        | inl (_, e) ↦
            let (ws', st', gs, run, k) = ship_all-IsSent now st ws all.1 in
            (
              w ∷ ws',
              st',
              gs,
              rw (e, run),
              record {
                sent = k.sent;
                frames = k.frames;
                outgoing = (all.0, k.outgoing);
                tx_eof = k.tx_eof;
                rx_fin = k.rx_fin;
              },
            )
        | inr (segment, g, e, same, size, is) ↦
            let st1 : State = shipped st g (last_byte w) in
            let (ws', st', gs, run, k) = ship_all-IsSent now st1 ws all.1 in
            (
              xmitted st w segment now ∷ ws',
              st',
              gs ++ g ∷ [],
              rw (e, run),
              record {
                sent = k.sent ∙ sym (append_assoc gs (g ∷ []) st.sent);
                frames =
                    All-append IsFrame gs (g ∷ []) k.frames (shipped-IsFrom st w g all.0 is, tt);
                outgoing = (xmitted-IsOutgoing st w now segment g all.0 same size is, k.outgoing);
                tx_eof = k.tx_eof;
                rx_fin = k.rx_fin;
              },
            )
      ]

-- While neither end has closed, tx_flush_conn only sends what waits.
tx_flush_conn-open :
    (space : List ℕ → ℕ) (client : Bool) (now : ℕ) (st st' : State) (ws : List Wrapped)
    → ship_all now st st.unacked ≡ done (ws, st')
    → st'.tx_eof ≡ 0
    → st'.rx_fin ≡ 0
    → tx_flush_conn space client now st ≡ done (some (with_unacked (ws, st')))
unfolding tx_flush_conn send_eof close_input tear_down ◌>>=◌
tx_flush_conn-open space client now st st' ws e open_tx open_rx = rw e (simp (open_tx, open_rx))

-- While neither end has closed, ctcp_read ends without fault when what waits are segments of the stream, the
-- next segment starts at number `p`, and the reports of `conn_input`, of at most 1440 bytes each and none of
-- them an end of file, carry the stream from there. All frames that it sends are whole segments of the
-- stream, as ctcp_receive takes them; what then waits are segments of the stream; and the next segment starts
-- behind the bytes that were read.
pub ctcp_read-IsSent :
    (space : List ℕ → ℕ) (junk : ℕ → ℕ) (client : Bool) (now : ℕ) (s : ℕ → ℕ) (p : ℕ) (r : Reader)
    (inputs : List Input)
    → ((i : ℕ) → junk i < 256)
    → Carries s p inputs
    → Starts r.last_added p
    → All (IsOutgoing s) r.conn.unacked
    → ended (ending inputs) ≡ false
    → r.conn.tx_eof ≡ 0
    → r.conn.rx_fin ≡ 0
    → (r' : Reader) × (gs : List Buf) × (ctcp_read space junk client now r inputs ≡ done (some r'))
      × (r'.conn.sent ≡ gs ++ r.conn.sent)
      × All (IsFrame s) gs
      × All (IsOutgoing s) r'.conn.unacked
      × Starts r'.last_added (p + total inputs)
unfolding ctcp_read ◌>>=◌
ctcp_read-IsSent space junk client now s p r inputs whole c e all going open_tx open_rx =
    let (r1, ws, run, k) = read_loop-Follows junk whole s inputs r p c e in
    let st1 = with_end (ending inputs) r1.conn in
    let waiting : All (IsOutgoing s) st1.unacked =
      subst (λ (u : State). All (IsOutgoing s) u.unacked) (sym k.conn)
        (All-append (IsOutgoing s) r.conn.unacked ws all (Follows-IsOutgoing s p ws k.follows)) in
    let (ws', st', gs, out, v) = ship_all-IsSent s now st1 st1.unacked waiting in
    let same_tx : st1.tx_eof ≡ 0 = rw going (ap (λ (u : State). u.tx_eof) k.conn ∙ open_tx) in
    let same_rx : st1.rx_fin ≡ 0 = ap (λ (u : State). u.rx_fin) k.conn ∙ open_rx in
    let flush =
      tx_flush_conn-open space client now st1 st' ws' out (v.tx_eof ∙ same_tx)
        (v.rx_fin ∙ same_rx) in
    (
      record { conn = with_unacked (ws', st'); last_added = r1.last_added },
      gs,
      rw (run, flush),
      v.sent ∙ ap (λ (u : State). gs ++ u.sent) k.conn,
      v.frames,
      v.outgoing,
      k.starts,
    )
