-- ===== src/Ctcp/Read.antt =====
-- `ctcp_read` of ctcp.c: the input is cut into segments. The times that pacing computes are floating-point
-- numbers that nothing reads; they are left out.
pub mod Cut
pub mod Outgoing
pub mod Examples
use cs.Base.{
  ℕ, ◌+◌, ◌-◌, ◌%◌, ◌^◌, List, [], ◌∷◌, ◌++◌, Bool, Option, none, some, ◌==◌, ltb, ◌&&◌,
  if◌then◌else◌, Run, done, fault, ◌>>=◌, true, false,
}
use cs.Bytes.{Buf, store16, store32, fresh_buf, memcpy, htons, htonl}
use cs.Ctcp.State.{State, Wrapped, header_len, ack_flag, load_seqno, load_len, end_of}
use cs.Ctcp.Output.{wrapped_copy}
use cs.Ctcp.Flush.{tx_flush_conn}

-- What a call of `conn_input` reports: bytes, in the buffer; 0; or -1.
pub data Input : Type 0 where
  got : Buf → Input
  nothing : Input
  eof : Input

-- `last_added` is what following `tx_seg_last_added` yields: `none` for the null pointer, and a fault once
-- the segment was freed.
pub record Reader : Type 0 where
  pub conn : State
  pub last_added : Option (Run Buf)

unfoldable pub next_seqno : Option (Run Buf) → Run ℕ
next_seqno none = done 1
next_seqno (some p) = do
  b ← p
  seqno ← load_seqno b
  len ← load_len b
  done ((seqno + len + (2 ^ 32 - header_len)) % 2 ^ 32)

-- The new segment: its acknowledgement stays as `malloc` left it.
unfoldable pub tx_segment : (ℕ → ℕ) → State → ℕ → Buf → Run Buf
tx_segment junk st seqno stdin_buf = do
  let len = header_len + stdin_buf.len
  s ← store32 (fresh_buf len junk) 0 (htonl seqno)
  s ← store16 s 8 (htons len)
  s ← store32 s 12 (htonl ack_flag)
  s ← store16 s 16 (htons (st.recv_window % 2 ^ 16))
  s ← store16 s 18 0
  s ← memcpy s header_len stdin_buf 0 stdin_buf.len
  wrapped_copy s len

abbrev pub fresh_wrapped : Buf → Wrapped
fresh_wrapped segment = record {
  num_xmits = 0;
  last_send = 0;
  actual_sendtime = 0;
  bytes_acked = 0;
  segment = segment;
}

abbrev pub with_added : Reader → Buf → Reader
with_added r segment = record {
  conn = record r.conn { unacked = r.conn.unacked ++ fresh_wrapped segment ∷ [] };
  last_added = some (done segment);
}

unfoldable pub add_segment : (ℕ → ℕ) → Reader → Buf → Run Reader
unfolding next_seqno tx_segment
add_segment junk r stdin_buf = do
  seqno ← next_seqno r.last_added
  segment ← tx_segment junk r.conn seqno stdin_buf
  done (with_added r segment)

-- The loop, with the result of the last call.
unfoldable pub read_loop : (ℕ → ℕ) → Reader → List Input → Run (Reader × Input)
unfolding add_segment
read_loop junk r [] = done (r, nothing)
read_loop junk r (nothing ∷ rest) = done (r, nothing)
read_loop junk r (eof ∷ rest) = done (r, eof)
read_loop junk r (got stdin_buf ∷ rest) = do
  r' ← add_segment junk r stdin_buf
  read_loop junk r' rest

abbrev pub ended : Input → Bool
ended (got b) = false
ended nothing = false
ended eof = true

abbrev pub with_end : Input → State → State
with_end last st = record st { tx_eof = if ended last && st.tx_eof == 0 then 1 else st.tx_eof }

abbrev pub flushed : Option (Run Buf) → Option State → Option Reader
flushed last none = none
flushed last (some st) = some (record { conn = st; last_added = last })

unfoldable pub ctcp_read :
    (List ℕ → ℕ) → (ℕ → ℕ) → Bool → ℕ → Reader → List Input → Run (Option Reader)
unfolding read_loop
ctcp_read space junk client now r inputs = do
  (r', last) ← read_loop junk r inputs
  out ← tx_flush_conn space client now (with_end last r'.conn)
  done (flushed r'.last_added out)
