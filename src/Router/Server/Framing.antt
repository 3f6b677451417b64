-- ===== src/Router/Server/Framing.antt =====
-- Commands that the socket gives in pieces, and the end of the stream.
use cs.Base.{
  ℕ, ◌+◌, ◌-◌, ◌≤◌, ◌<◌, ◌≡◌, refl, ap, ◌∙◌, List, [], ◌∷◌, ◌++◌, length, length-append, ltb, false,
  le→leb, lt→leb, arith, done, ◌>>=◌,
}
use mathlib.Core.List.{append_assoc}
use cs.Bytes.Patch.{patch_in, patch_out}
use cs.Bytes.{Buf, byte_at, byte_of, patch, word_at, of_bytes, htonl}
use cs.Bytes.Words.{word_bytes, htonl-lt, network_word, same_word}
use cs.Router.Server.{
  Answer, bytes, interrupted, broken, filled, fill, command, max_command, take_body, take_head,
  read_command,
}

-- Reads that give the bytes `cs` in pieces, with interrupts in between; the last read brings the last byte.
pub data Pieces : List Answer → List ℕ → Type 0 where
  last_piece : (bs : List ℕ) → 0 < length bs → Pieces (bytes bs ∷ []) bs
  piece :
      {reads : List Answer} {cs : List ℕ} (bs : List ℕ)
      → Pieces reads cs
      → Pieces (bytes bs ∷ reads) (bs ++ cs)
  signal : {reads : List Answer} {cs : List ℕ} → Pieces reads cs → Pieces (interrupted ∷ reads) cs

Pieces-pos : {reads : List Answer} {cs : List ℕ} → Pieces reads cs → 0 < length cs
Pieces-pos (last_piece bs h) = h
Pieces-pos (piece {cs = cs} bs p) = omega (arith, Pieces-pos p, length-append bs cs)
Pieces-pos (signal p) = Pieces-pos p

fill-enough :
    (want : ℕ) (got : List ℕ) (reads : List Answer)
    → want ≤ length got
    → fill want got reads ≡ done (filled got reads)
unfolding fill
fill-enough want got [] h = rw (le→leb want (length got) h)
fill-enough want got (bytes bs ∷ reads) h = rw (le→leb want (length got) h)
fill-enough want got (interrupted ∷ reads) h = rw (le→leb want (length got) h)
fill-enough want got (broken ∷ reads) h = rw (le→leb want (length got) h)

pub fill-Pieces :
    (want : ℕ) (got : List ℕ) {reads : List Answer} {cs : List ℕ} (rest : List Answer)
    → Pieces reads cs
    → length got + length cs ≡ want
    → fill want got (reads ++ rest) ≡ done (filled (got ++ cs) rest)
unfolding fill
fill-Pieces want got rest (last_piece bs h) e =
    rw (lt→leb want (length got) (omega arith), le→leb (length got + length bs) want (omega arith))
      (fill-enough want (got ++ bs) rest (omega (arith, length-append got bs)))
fill-Pieces want got {reads} {cs} rest (piece {cs = ds} bs p) e =
    let a = Pieces-pos p in
    let b = length-append bs ds in
    let ih = fill-Pieces want (got ++ bs) rest p (omega (arith, length-append got bs)) in
    rw (lt→leb want (length got) (omega arith), le→leb (length got + length bs) want (omega arith))
      (ih ∙ ap (λ l. done (filled l rest)) (append_assoc got bs ds))
fill-Pieces want got rest (signal p) e =
    rw (lt→leb want (length got) (omega (arith, Pieces-pos p))) (fill-Pieces want got rest p e)

-- The block in which a command arrived: its length in network order, its kind in the host's, and the bytes
-- that were sent.
pub record IsCommand (body : List ℕ) (b : Buf) : Type 0 where
  pub size : b.len ≡ 4 + length body
  pub length_field : htonl (word_at b 0) ≡ 4 + length body
  pub kind_field : word_at b 4 ≡ htonl (word_at (of_bytes body) 0)
  pub content : (i : ℕ) → 4 ≤ i → i < length body → b.at (4 + i) ≡ byte_at body i

-- What stands in the block when its body has been read.
abbrev pub whole : (ℕ → ℕ) → ℕ → List ℕ → Buf
whole junk len body = record {
  len = len;
  at =
      patch (patch (patch junk 0 4 (byte_of (htonl len))) 4 (len - 4) (λ i. byte_at body (0 + i))) 4
        4 (byte_of (htonl (word_at (of_bytes body) 0)));
}

whole-IsCommand :
    (junk : ℕ → ℕ) (len : ℕ) (body : List ℕ)
    → len ≡ 4 + length body
    → 4 ≤ length body
    → len ≤ max_command
    → IsCommand body (whole junk len body)
whole-IsCommand junk len body e long few = record {
  size = e;
  length_field = network_word len (omega arith) ∙ e;
  kind_field =
      word_bytes (htonl (word_at (of_bytes body) 0)) (htonl-lt (word_at (of_bytes body) 0));
  content = inside;
}
  where
    inside : (i : ℕ) → 4 ≤ i → i < length body → (whole junk len body).at (4 + i) ≡ byte_at body i
    inside i h k =
        let first = patch junk 0 4 (byte_of (htonl len)) in
        let middle = patch first 4 (len - 4) (λ i. byte_at body (0 + i)) in
        let start : 0 + i ≡ i = omega arith in
        patch_out middle 4 4 (byte_of (htonl (word_at (of_bytes body) 0))) (4 + i) (omega arith)
        ∙ patch_in first 4 (len - 4) (λ i. byte_at body (0 + i)) i (omega arith)
        ∙ ap (byte_at body) start

-- The kind of a command, once its body stands in the block.
kind_word :
    (first : ℕ → ℕ) (n : ℕ) (body : List ℕ)
    → 4 ≤ n
    → word_at (record { len = 0; at = patch first 4 n (λ i. byte_at body (0 + i)) }) 4
      ≡ word_at (of_bytes body) 0
kind_word first n body h =
    let f : ℕ → ℕ = λ i. byte_at body (0 + i) in
    same_word _ _ _ _ _ _ _ _ (patch_in first 4 n f 0 (omega arith))
      (patch_in first 4 n f 1 (omega arith)) (patch_in first 4 n f 2 (omega arith))
      (patch_in first 4 n f 3 (omega arith))

take_body_lem :
    (junk : ℕ → ℕ) (len : ℕ) (body : List ℕ) (rest : List Answer)
    → len ≡ 4 + length body
    → 4 ≤ length body
    → take_body
        (record { len = len; at = patch junk 0 4 (byte_of (htonl len)) })
        len
        (filled body rest)
      ≡ done (command (whole junk len body) len (htonl (word_at (of_bytes body) 0)) rest)
unfolding take_body ◌>>=◌
take_body_lem junk len body rest e long = rw (
  le→leb (4 + (len - 4)) len (omega arith),
  le→leb (0 + (len - 4)) (length body) (omega arith),
  le→leb 8 len (omega arith),
  kind_word (patch junk 0 4 (byte_of (htonl len))) (len - 4) body (omega arith),
)

-- The block in which a command is read.
pub read_command-whole :
    (junk : ℕ → ℕ) {heads bodies : List Answer} (head body : List ℕ) (rest : List Answer)
    → Pieces heads head
    → Pieces bodies body
    → length head ≡ 4
    → htonl (word_at (of_bytes head) 0) ≡ 4 + length body
    → 4 ≤ length body
    → 4 + length body ≤ max_command
    → read_command junk (heads ++ (bodies ++ rest))
      ≡ done (
          command
            (whole junk (4 + length body) body)
            (4 + length body)
            (htonl (word_at (of_bytes body) 0))
            rest)
unfolding read_command take_head ◌>>=◌
read_command-whole junk {heads} {bodies} head body rest p q four field long few =
    let len = 4 + length body in
    let here : fill 4 [] (heads ++ (bodies ++ rest)) ≡ done (filled head (bodies ++ rest)) =
      fill-Pieces 4 [] (bodies ++ rest) p (omega arith) in
    let there : fill (len - 4) [] (bodies ++ rest) ≡ done (filled body rest) =
      fill-Pieces (len - 4) [] rest q (omega arith) in
    let small : ltb max_command len ≡ false = ground arith in
    rw (here, le→leb 4 (length head) (omega arith), field, small, le→leb 4 len (omega arith), there)
      (take_body_lem junk len body rest refl long)

-- However the socket cuts a command of 8 to 10,000 bytes into pieces, and whatever signals interrupt its
-- reads, `sr_read_from_server_expect` reads the command as it was sent and nothing of what follows: its length,
-- its kind turned to the host's order, and every byte behind them.
pub read_command-IsCommand :
    (junk : ℕ → ℕ) {heads bodies : List Answer} (head body : List ℕ) (rest : List Answer)
    → Pieces heads head
    → Pieces bodies body
    → length head ≡ 4
    → htonl (word_at (of_bytes head) 0) ≡ 4 + length body
    → 4 ≤ length body
    → 4 + length body ≤ max_command
    → (b : Buf) × (read_command junk (heads ++ (bodies ++ rest))
        ≡ done (command b (4 + length body) (htonl (word_at (of_bytes body) 0)) rest))
      × IsCommand body b
read_command-IsCommand junk head body rest p q four field long few = (
  whole junk (4 + length body) body,
  read_command-whole junk head body rest p q four field long few,
  whole-IsCommand junk (4 + length body) body refl long few,
)
