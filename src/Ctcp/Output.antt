-- ===== src/Ctcp/Output.antt =====
-- `ctcp_output` of ctcp.c: the segments that were received go out in the order of their numbers.
-- A segment is kept in a block of its length and the 24 bytes that the wrapper has from its segment on.
use cs.Base.{
  ℕ, zero, suc, ◌+◌, ◌-◌, ◌%◌, ◌^◌, List, [], ◌∷◌, ◌++◌, ◌&&◌, none, some, ◌==◌, ltb, leb,
  if◌then◌else◌, Run, done, fault, ◌>>=◌,
}
use cs.Bytes.{Buf, fits, memcpy, zeroed}
use cs.Ctcp.State.{State, load_seqno, load_len, end_of}
use cs.Ctcp.Ack.{ship_ack}

-- calloc(sizeof(wrapped_ctcp_segment_t) + len, 1) and memcpy of `len` bytes
abbrev pub wrapper_room : ℕ
wrapper_room = 24

abbrev pub wrapped_copy : Buf → ℕ → Run Buf
wrapped_copy segment len = memcpy (zeroed (wrapper_room + len)) 0 segment 0 len

abbrev pub bytes_from : (ℕ → ℕ) → ℕ → ℕ → List ℕ
bytes_from at off zero = []
bytes_from at off (suc n) = at off ∷ bytes_from at (off + 1) n

unfoldable pub get_last_output_seqno : Buf → Run ℕ
get_last_output_seqno b = do seqno ← load_seqno b; len ← load_len b; done (end_of seqno len)

-- 0 before the first segment.
unfoldable pub last_output_seqno : State → Run ℕ
unfolding get_last_output_seqno
last_output_seqno st = elim st.last_output [ none ↦ done 0 | some b ↦ get_last_output_seqno b ]

-- An `int` of 32 bits, given by its bits, as a `size_t`.
abbrev pub to_size : ℕ → ℕ
to_size bits = if ltb bits (2 ^ 31) then bits else bits + (2 ^ 64 - 2 ^ 32)

-- data + (len - sizeof(ctcp_segment_t) - n), n bytes
abbrev pub tail_bytes : Buf → ℕ → ℕ → Run (List ℕ)
tail_bytes b len n =
    if leb n len && fits b (len - n) n then done (bytes_from b.at (len - n) n) else fault

abbrev pub with_output : State → Buf → List ℕ → State
with_output st b bytes = record st { last_output = some b; output = st.output ++ bytes }

unfoldable pub deliver : State → Buf → ℕ → ℕ → ℕ → Run State
deliver st b len end n = do
  acked ← ship_ack st ((end + 1) % 2 ^ 32)
  bytes ← tail_bytes b len n
  copy ← wrapped_copy b len
  done (with_output acked copy bytes)

abbrev pub Walk : Type 0
Walk = State × List Buf

abbrev pub keep : Buf → Walk → Walk
keep b (st, rest) = (st, b ∷ rest)

-- `space` is what `conn_bufspace` reports, given what was handed to `conn_output`.
module _ (space : List ℕ → ℕ) where
  -- The segment `b`, once its numbers are known; `walk` goes on with the rest. A duplicate of the last
  -- segment ends the walk, and so does a full buffer.
  unfoldable pub output_by : State → Buf → List Buf → ℕ → ℕ → ℕ → (State → Run Walk) → Run Walk
  unfolding deliver
  output_by st b rest start len last walk =
      let end = end_of start len in
      let n = (end + 2 ^ 32 - last) % 2 ^ 32 in
      let following = (last + 1) % 2 ^ 32 in
      if last == end
      then (do acked ← ship_ack st ((end + 1) % 2 ^ 32); done (acked, b ∷ rest))
      else if leb start following && leb following end
      then (if ltb (space st.output) (to_size n)
          then done (st, b ∷ rest)
          else deliver st b len end n >>= walk)
      else (do w ← walk st; done (keep b w))

  unfoldable pub output_loop : State → List Buf → Run Walk
  unfolding output_by last_output_seqno
  output_loop st [] = done (st, [])
  output_loop st (b ∷ rest) = do
    start ← load_seqno b
    len ← load_len b
    last ← last_output_seqno st
    output_by st b rest start len last (λ st'. output_loop st' rest)

  abbrev with_buffered : Walk → State
  with_buffered (st, rest) = record st { buffered = rest }

  unfoldable pub ctcp_output : State → Run State
  unfolding output_loop
  ctcp_output st = do w ← output_loop st st.buffered; done (with_buffered w)
