-- ===== src/Router/Client/Rounds.antt =====
-- How often the main loop of sr_main.c goes round.
use mathlib.Core.Path.{subst}
use cs.Base.{
  if-both, ℕ, zero, suc, ◌+◌, ◌-◌, ◌≤◌, ◌<◌, ◌≡◌, refl, sym, List, [], ◌∷◌, ◌++◌, length, Option,
  none, some, Run, Ensures, returns, undefined, next, bind, branch, Ensures-mono, leb, ◌==◌, arith,
}
use cs.Bytes.{Buf, htonl}
use cs.Router.State.{Env}
use cs.Router.Server.{
  Answer, bytes, interrupted, broken, Filled, filled, failed, waiting, fill, Reading, command,
  refused, never, take_body, take_head, read_command,
}
use cs.Router.Client.{
  World, Session, Status, more, closed, error, Served, ended, blocked, running, table_written,
  answered, dispatch, serve_reading, sr_read_from_server_expect, sr_read_from_server, after_round,
  sweeps, with_router, main_loop, take_packet, take_hwinfo, vns_packet, vns_close, vns_hwinfo,
  vns_rtable, vns_auth_request, vns_auth_status,
}
use cs.Router.Login.{sr_handle_rtable, sr_handle_auth_request, sr_handle_auth_status}

-- Fewer than `n` answers are left.
abbrev Fewer : ℕ → Filled → Type 0
Fewer n (filled bs rest) = length rest < n
Fewer n (failed rest) = length rest < n
Fewer n waiting = Unit

Fewer-mono : (m n : ℕ) → m ≤ n → (f : Filled) → Fewer m f → Fewer n f
Fewer-mono m n h (filled bs rest) k = omega arith
Fewer-mono m n h (failed rest) k = omega arith
Fewer-mono m n h waiting k = tt

fill-Fewer :
    (want : ℕ) (got : List ℕ) (reads : List Answer)
    → Ensures (Fewer (suc (length reads))) (fill want got reads)
unfolding fill
fill-Fewer want got [] = returns (if-both (Fewer 1) (leb want (length got)) (omega arith) tt)
fill-Fewer want got (bytes bs ∷ reads) = branch (leb want (length got)) (returns (omega arith)) (
    branch (leb (length got + length bs) want)
      (Ensures-mono (fill-Fewer want (got ++ bs) reads)
        (Fewer-mono (suc (length reads)) (suc (suc (length reads))) (omega arith)))
      undefined)
fill-Fewer want got (interrupted ∷ reads) = branch (leb want (length got)) (returns (omega arith)) (
    Ensures-mono (fill-Fewer want got reads)
      (Fewer-mono (suc (length reads)) (suc (suc (length reads))) (omega arith)))
fill-Fewer want got (broken ∷ reads) =
    branch (leb want (length got)) (returns (omega arith)) (returns (omega arith))

-- The loop for the length always reads.
fill_head-Fewer : (reads : List Answer) → Ensures (Fewer (length reads)) (fill 4 [] reads)
unfolding fill
fill_head-Fewer [] = returns tt
fill_head-Fewer (bytes bs ∷ reads) =
    branch (leb (0 + length bs) 4) (fill-Fewer 4 bs reads) undefined
fill_head-Fewer (interrupted ∷ reads) = fill-Fewer 4 [] reads
fill_head-Fewer (broken ∷ reads) = returns (omega arith)

abbrev Shorter : ℕ → Reading → Type 0
Shorter n (command b len kind rest) = length rest < n
Shorter n (refused rest) = length rest < n
Shorter n never = Unit

take_body-Shorter :
    (b : Buf) (len n : ℕ) (f : Filled) → Fewer n f → Ensures (Shorter n) (take_body b len f)
unfolding take_body
take_body-Shorter b len n (failed rest) h = returns h
take_body-Shorter b len n waiting h = returns tt
take_body-Shorter b len n (filled body rest) h = next _ λ b'. next _ λ kind. next _ λ b''. returns h

take_head-Shorter :
    (junk : ℕ → ℕ) (n : ℕ) (f : Filled) → Fewer n f → Ensures (Shorter n) (take_head junk f)
unfolding take_head
take_head-Shorter junk n (failed rest) h = returns h
take_head-Shorter junk n waiting h = returns tt
take_head-Shorter junk n (filled head rest) h = next _ λ word. branch _ (returns h) (
    next _ λ b. bind (fill-Fewer (htonl word - 4) [] rest) λ f k.
      take_body-Shorter b (htonl word) n f (Fewer-mono (suc (length rest)) n (omega arith) f k))

read_command-Shorter :
    (junk : ℕ → ℕ) (reads : List Answer)
    → Ensures (Shorter (length reads)) (read_command junk reads)
unfolding read_command
read_command-Shorter junk reads =
    bind (fill_head-Fewer reads) λ f k. take_head-Shorter junk (length reads) f k

-- What is left of the socket's answers after a command.
abbrev Left : ℕ → Option (Session × Status) → Type 0
Left n none = Unit
Left n (some (s, st)) = length s.socket < n

dispatch-socket :
    (w : World) (s : Session) (buf : Buf) (len kind : ℕ)
    → Ensures (λ p. p.0.socket ≡ s.socket) (dispatch w s buf len kind)
unfolding dispatch
dispatch-socket w s buf len kind =
    branch (kind == vns_packet) (next (take_packet w s.router buf len) λ sr. returns refl) (
      branch (kind == vns_close) (returns refl) (
        branch (kind == vns_hwinfo) (next (take_hwinfo w s.router buf len) λ p. returns refl) (
          branch (kind == vns_rtable)
            (next (sr_handle_rtable w.host buf len) λ t. returns (by_table t))
            (branch (kind == vns_auth_request)
              (next (sr_handle_auth_request w.host s.user buf len) λ r. returns (by_reply r))
              (branch (kind == vns_auth_status)
                (next (sr_handle_auth_status buf) λ ok. returns refl) (returns refl))))))
  where
    by_table : (t : Option (List ℕ × Buf)) → (table_written s t).0.socket ≡ s.socket
    by_table none = refl
    by_table (some t) = refl

    by_reply : (r : Option Buf) → (answered s r).0.socket ≡ s.socket
    by_reply none = refl
    by_reply (some r) = refl

serve_reading-Left :
    (w : World) (expected n : ℕ) (s : Session) (r : Reading)
    → Shorter n r
    → Ensures (Left n) (serve_reading w expected s r)
serve_reading-Left w expected n s never h = returns tt
serve_reading-Left w expected n s (refused rest) h = returns h
serve_reading-Left w expected n s (command buf len kind rest) h = branch _ (returns h) (
    bind (dispatch-socket w (record s { socket = rest }) buf len kind)
      λ p e. returns (subst (λ (l : List Answer). length l < n) (sym e) h))

sr_read_from_server-Left :
    (w : World) (s : Session) → Ensures (Left (length s.socket)) (sr_read_from_server w s)
unfolding sr_read_from_server sr_read_from_server_expect
sr_read_from_server-Left w s =
    bind (read_command-Shorter w.block s.socket)
      λ r h. serve_reading-Left w 0 (length s.socket) s r h

-- The loop is over, or waits for the socket.
abbrev pub Stands : Served → Type 0
Stands (ended s) = Unit
Stands (blocked s) = Unit
Stands (running s) = ⊥

after_round-Stands :
    (k : Session → Run Served) (n : ℕ) (s : Session) (r : Option (Session × Status))
    → Left n r
    → ((s' : Session) → length s'.socket < n → Ensures Stands (k s'))
    → Ensures Stands (after_round k s r)
after_round-Stands k n s none h f = returns tt
after_round-Stands k n s (some (s', more)) h f = f s' h
after_round-Stands k n s (some (s', closed)) h f = returns tt
after_round-Stands k n s (some (s', error)) h f = returns tt

-- The main loop needs no more rounds than the socket gives answers, and one: by then it has ended or waits for
-- the socket, or has come to undefined behaviour.
pub main_loop-Stands :
    (w : ℕ → World) (t : ℕ → List Env) (n : ℕ) (s : Session)
    → length s.socket < n
    → Ensures Stands (main_loop w t n s)
unfolding main_loop
main_loop-Stands w t zero s h = elim h [ ]
main_loop-Stands w t (suc n) s h = next (sweeps (t n) s.router) λ sr.
    bind (sr_read_from_server-Left (w n) (with_router s sr)) λ r k.
      after_round-Stands (λ s'. main_loop w t n s') (length s.socket) (with_router s sr) r k
        (λ s' l. main_loop-Stands w t n s' (omega arith))
