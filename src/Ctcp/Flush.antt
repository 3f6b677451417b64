-- ===== src/Ctcp/Flush.antt =====
-- `tx_flush_conn` and `ctcp_timer` of ctcp.c. `none` stands for a process that has ended: on a client
-- `end_client`, which `ctcp_destroy` calls, does not return. On a server it returns, and the state that
-- was freed is read again. The branch for a negative result of `ship_tx_node` is left out, as there is none.
use cs.Base.{
  ℕ, ◌+◌, ◌%◌, ◌^◌, ◌≡◌, List, [], ◌∷◌, Bool, true, not, ◌&&◌, ◌||◌, Option, none, some, ◌==◌,
  if◌then◌else◌, Run, done, fault, ◌>>=◌,
}
use cs.Ctcp.State.{State, Wrapped}
use cs.Ctcp.Ack.{ship_ack}
use cs.Ctcp.Output.{ctcp_output}
use cs.Ctcp.Ship.{ship_tx_node}

abbrev pub with_unacked : List Wrapped × State → State
with_unacked (ws, st) = record st { unacked = ws }

unfoldable pub ship_all : ℕ → State → List Wrapped → Run (List Wrapped × State)
ship_all now st [] = done ([], st)
ship_all now st (w ∷ ws) = do
  (w', st') ← ship_tx_node st w now
  (ws', st'') ← ship_all now st' ws
  done (w' ∷ ws', st'')

-- The end of the input was read.
unfoldable pub send_eof : State → Run State
send_eof st =
    if st.tx_eof == 1 || st.tx_eof == 2
    then (do
      acked ← ship_ack (record st { tx_eof = 100 }) (st.next_ackno % 2 ^ 32)
      done (record acked { seqno_last_shipped = (acked.seqno_last_shipped + 1) % 2 ^ 64 }))
    else done st

abbrev pub fin_done : ℕ
fin_done = 0xffffffff

module _ (space : List ℕ → ℕ) where
  -- All that precedes the FIN has come.
  unfoldable pub close_input : State → Run State
  close_input st =
      let next = (st.next_ackno + 1) % 2 ^ 64 in
      let tx_eof = if st.tx_eof == 100 then 101 else st.tx_eof in
      if not (st.rx_fin == 0) && (not (st.rx_fin == fin_done) && st.next_ackno == st.rx_fin)
      then (do
        acked ← ship_ack (record st { next_ackno = next; tx_eof = tx_eof }) (next % 2 ^ 32)
        out ← ctcp_output space (record acked { rx_fin = fin_done })
        done (record out { closed = true }))
      else done st

  -- `client` tells whether `ctcp_destroy` returns.
  unfoldable pub tear_down : Bool → State → Run (Option State)
  tear_down client st =
      if st.tx_eof == 101
      then (if client then done none else fault)
      else done (
          some (record st {
            tx_eof = if st.rx_fin == fin_done && st.tx_eof == 100 then 101 else st.tx_eof;
          }))

  unfoldable pub tx_flush_conn : Bool → ℕ → State → Run (Option State)
  unfolding ship_all send_eof close_input tear_down
  tx_flush_conn client now st = do
    out ← ship_all now st st.unacked
    eof ← send_eof (with_unacked out)
    fin ← close_input eof
    tear_down client fin

  abbrev pub or_end : Option State → (State → Run (Option (List State))) → Run (Option (List State))
  or_end none k = done none
  or_end (some st) k = k st

  abbrev pub with_state : State → Option (List State) → Option (List State)
  with_state st none = none
  with_state st (some rest) = some (st ∷ rest)

  -- Every connection: what waits goes out, and what was not acknowledged is sent again.
  unfoldable pub ctcp_timer : Bool → ℕ → List State → Run (Option (List State))
  unfolding tx_flush_conn
  ctcp_timer client now [] = done (some [])
  ctcp_timer client now (st ∷ rest) = do
    out ← ctcp_output space st
    flushed ← tx_flush_conn client now out
    or_end flushed (λ st'. do states ← ctcp_timer client now rest; done (with_state st' states))

-- When both ends are done (the FIN was taken in, and its acknowledgement made the state 101) and nothing
-- waits, the next call ends a client. A server reads the freed state.
pub tx_flush_conn-gone :
    (space : List ℕ → ℕ) (client : Bool) (now : ℕ) (st : State)
    → st.unacked ≡ []
    → st.tx_eof ≡ 101
    → st.rx_fin ≡ fin_done
    → tx_flush_conn space client now st ≡ (if client then done none else fault)
unfolding tx_flush_conn ship_all send_eof close_input tear_down ◌>>=◌
tx_flush_conn-gone space client now st idle over fin = rw (idle, over, fin)
