-- ===== src/Ctcp/Stream.antt =====
-- The stream of bytes that the receiver puts together, numbered from 1, and one segment of it going out.
use cs.Base.{
  ℕ, zero, suc, ◌+◌, ◌-◌, ◌%◌, ◌^◌, ◌≤◌, ◌<◌, ◌≡◌, refl, sym, ap, ◌∙◌, ◌∷◌, ◌++◌, true, Option,
  none, some, leb, le→leb, arith, done, ◌>>=◌,
}
use cs.Bytes.{Buf, patch}
use cs.Ctcp.State.{State, seqno_of, len_of, end_of, load_seqno, load_len}
use cs.Ctcp.Ack.{with_sent, ship_ack-IsAck}
use cs.Ctcp.Output.{
  bytes_from, get_last_output_seqno, last_output_seqno, tail_bytes, with_output, deliver,
}

bytes_from-append :
    (s : ℕ → ℕ) (k m n : ℕ) → bytes_from s k (m + n) ≡ bytes_from s k m ++ bytes_from s (k + m) n
bytes_from-append s k zero n =
    let e : 0 + n ≡ n = omega arith in let f : k + 0 ≡ k = omega arith in rw (e, f)
bytes_from-append s k (suc m) n =
    let e : suc m + n ≡ suc (m + n) = omega arith in
    let f : k + suc m ≡ k + 1 + m = omega arith in
    rw (e, f) (ap (λ l. s k ∷ l) (bytes_from-append s (k + 1) m n))

shifted :
    (f g : ℕ → ℕ) (off k n j : ℕ)
    → ((i : ℕ) → i < suc n → f (off + i) ≡ g (k + i))
    → j < n
    → f (off + 1 + j) ≡ g (k + 1 + j)
shifted f g off k n j h l =
    let a : off + 1 + j ≡ off + suc j = omega arith in
    let b : k + 1 + j ≡ k + suc j = omega arith in rw (a, b) (h (suc j) (omega arith))

bytes_from_congr :
    (f g : ℕ → ℕ) (off k n : ℕ)
    → ((j : ℕ) → j < n → f (off + j) ≡ g (k + j))
    → bytes_from f off n ≡ bytes_from g k n
bytes_from_congr f g off k zero h = refl
bytes_from_congr f g off k (suc n) h =
    let a : off + 0 ≡ off = omega arith in
    let b : k + 0 ≡ k = omega arith in
    let here : f off ≡ g k = rw (a, b) at (h 0 (omega arith)) in
    let rest = bytes_from_congr f g (off + 1) (k + 1) n (λ j l. shifted f g off k n j h l) in
    rw (here, rest)

-- A segment of the stream `s`, as the receiver keeps it, with data and with numbers of 31 bits.
pub record IsPart (s : ℕ → ℕ) (b : Buf) : Type 0 where
  pub room : b.len ≡ 24 + len_of b
  pub payload : 20 < len_of b
  pub first : 1 ≤ seqno_of b
  pub bound : seqno_of b + len_of b ≤ 2 ^ 31
  pub same : (j : ℕ) → j < len_of b - 20 → b.at (20 + j) ≡ s (seqno_of b + j)

-- The number of the last byte that was output.
abbrev pub last_of : Option Buf → ℕ
last_of none = 0
last_of (some b) = seqno_of b + len_of b - 21

abbrev pub LastPart : (ℕ → ℕ) → Option Buf → Type 0
LastPart s none = Unit {0}
LastPart s (some b) = IsPart s b

-- The output is the stream up to the last segment that went out.
pub record IsDelivered (s : ℕ → ℕ) (st : State) : Type 0 where
  pub part : LastPart s st.last_output
  pub output : st.output ≡ bytes_from s 1 (last_of st.last_output)

pub last_of-lt : (s : ℕ → ℕ) (o : Option Buf) → LastPart s o → last_of o + 21 ≤ 2 ^ 31
last_of-lt s none p = omega arith
last_of-lt s (some b) p = omega (arith, p.bound, p.payload)

pub end_of-part :
    (s : ℕ → ℕ) (b : Buf) → IsPart s b → end_of (seqno_of b) (len_of b) ≡ seqno_of b + len_of b - 21
end_of-part s b p = omega (arith, p.bound, p.payload, p.first)

pub load_seqno-part : (s : ℕ → ℕ) (b : Buf) → IsPart s b → load_seqno b ≡ done (seqno_of b)
unfolding ◌>>=◌
load_seqno-part s b p = rw (le→leb 4 b.len (omega (arith, p.room)))

pub load_len-part : (s : ℕ → ℕ) (b : Buf) → IsPart s b → load_len b ≡ done (len_of b)
unfolding ◌>>=◌
load_len-part s b p = rw (le→leb 10 b.len (omega (arith, p.room)))

get_last_output_seqno-part :
    (s : ℕ → ℕ) (b : Buf) → IsPart s b → get_last_output_seqno b ≡ done (last_of (some b))
unfolding get_last_output_seqno ◌>>=◌
get_last_output_seqno-part s b p =
    rw (load_seqno-part s b p, load_len-part s b p, end_of-part s b p)

last_lem :
    (s : ℕ → ℕ) (st : State) (o : Option Buf)
    → st.last_output ≡ o
    → LastPart s o
    → last_output_seqno st ≡ done (last_of o)
unfolding last_output_seqno
last_lem s st none e p = rw e
last_lem s st (some b) e p = rw e (get_last_output_seqno-part s b p)

pub last_output_seqno-part :
    (s : ℕ → ℕ) (st : State)
    → IsDelivered s st
    → last_output_seqno st ≡ done (last_of st.last_output)
last_output_seqno-part s st d = last_lem s st st.last_output refl d.part

-- The copy that stays behind.
abbrev pub copied : Buf → ℕ → Buf
copied b len = record { len = 24 + len; at = patch (λ i. 0) 0 len (λ i. b.at (0 + i)) }

pub copied-at : (b : Buf) (len i : ℕ) → i < len → (copied b len).at i ≡ b.at i
copied-at b len i h = ground arith

pub copied-seqno : (b : Buf) (len : ℕ) → 20 < len → seqno_of (copied b len) ≡ seqno_of b
copied-seqno b len h = rw (
  copied-at b len 0 (omega arith),
  copied-at b len 1 (omega arith),
  copied-at b len 2 (omega arith),
  copied-at b len 3 (omega arith),
)

pub copied-len : (b : Buf) (len : ℕ) → 20 < len → len_of (copied b len) ≡ len_of b
copied-len b len h = rw (copied-at b len 8 (omega arith), copied-at b len 9 (omega arith))

pub copied-IsPart : (s : ℕ → ℕ) (b : Buf) → IsPart s b → IsPart s (copied b (len_of b))
copied-IsPart s b p =
    let n = copied-len b (len_of b) p.payload in
    let k = copied-seqno b (len_of b) p.payload in
    record {
      room = ap (λ m. 24 + m) (sym n);
      payload = rw n p.payload;
      first = rw k p.first;
      bound = rw (k, n) p.bound;
      same =
          λ j h. rw k (copied-at b (len_of b) (20 + j) (omega (arith, n)) ∙ p.same j (rw n at h));
    }

-- Where byte `j` of the tail stands in the segment `q` of length `len`, and in the stream.
places :
    (q len last j : ℕ)
    → 20 < len
    → q ≤ last + 1
    → last < q + len - 21
    → j < q + len - 21 - last
    → (len - (q + len - 21 - last) + j ≡ 20 + (last + 1 - q + j))
      × (q + (last + 1 - q + j) ≡ 1 + last + j)
      × (last + 1 - q + j < len - 20)
places q len last j a b c d = (omega arith, omega arith, omega arith)

-- Handing out the tail of a segment that holds the next number.
module _ (s : ℕ → ℕ) (st : State) (b : Buf) (p : IsPart s b) (d : IsDelivered s st) where
  abbrev last : ℕ
  last = last_of st.last_output

  abbrev stop : ℕ
  stop = seqno_of b + len_of b - 21

  tail_bytes-part :
      seqno_of b ≤ last + 1
      → last < stop
      → tail_bytes b (len_of b) (stop - last) ≡ done (bytes_from s (1 + last) (stop - last))
  tail_bytes-part next more =
      let n = stop - last in
      let a : leb n (len_of b) ≡ true = le→leb n (len_of b) (omega (arith, p.payload)) in
      let inside : leb (len_of b - n + n) b.len ≡ true =
        le→leb _ b.len (omega (arith, p.payload, p.room)) in
      let same = λ (j : ℕ) (l : j < n).
        let i = last + 1 - seqno_of b + j in
        let (e, f, g) = places (seqno_of b) (len_of b) last j p.payload next more l in
        ap b.at e ∙ p.same i g ∙ ap s f in
      rw (a, inside) (ap done (bytes_from_congr b.at s (len_of b - n) (1 + last) n same))

  pub deliver-part :
      seqno_of b ≤ last + 1
      → last < stop
      → (st' : State) × (deliver st b (len_of b) stop (stop - last) ≡ done st')
        × IsDelivered s st'
        × (last_of st'.last_output ≡ stop)
  unfolding deliver ◌>>=◌
  deliver-part next more =
      let (g, e, is) = ship_ack-IsAck st ((stop + 1) % 2 ^ 32) (omega arith) in
      let inside : leb (0 + len_of b) b.len ≡ true = le→leb _ b.len (omega (arith, p.room)) in
      let room : leb (0 + len_of b) (24 + len_of b) ≡ true = le→leb _ _ (omega arith) in
      let c = copied b (len_of b) in
      let at_stop : last_of (some c) ≡ stop =
        rw (copied-seqno b (len_of b) p.payload, copied-len b (len_of b) p.payload) in
      let grown : stop ≡ last + (stop - last) = omega arith in
      (
        with_output (with_sent st g ((stop + 1) % 2 ^ 32)) c
            (bytes_from s (1 + last) (stop - last)),
        rw (e, tail_bytes-part next more, inside, room),
        record {
          part = copied-IsPart s b p;
          output =
              ap (λ l. l ++ bytes_from s (1 + last) (stop - last)) d.output
              ∙ sym (bytes_from-append s 1 last (stop - last))
              ∙ ap (bytes_from s 1) (sym grown ∙ sym at_stop);
        },
        at_stop,
      )
