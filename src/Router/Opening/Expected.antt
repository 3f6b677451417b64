-- ===== src/Router/Opening/Expected.antt =====
-- What an expected command does to the session that is opened.
use mathlib.Core.Path.{subst}
use cs.Base.{
  ℕ, ◌≡◌, refl, sym, ap, ◌∙◌, done, known, Bool, true, false, ◌==◌, ==_iff, List, ◌∷◌, Option, none,
  some, Ensures, returns, next, bind, branch, if◌then◌else◌, Bool-cases, inl, inr,
}
use cs.Bytes.{Buf}
use cs.Router.Login.{sr_handle_rtable, sr_handle_auth_request, sr_handle_auth_status}
use cs.Router.Server.{Answer, Reading, command, refused, never, read_command}
use cs.Router.Client.{
  World, Session, Status, more, closed, error, vns_close, vns_rtable, vns_auth_request,
  vns_auth_status, answered, table_written, dispatch, serve_reading, sr_read_from_server_expect,
}

-- What holds of the session when the expected command came.
abbrev pub Came : (Session → Type 0) → Option (Session × Status) → Type 0
Came P none = Unit
Came P (some (s, more)) = P s
Came P (some (s, closed)) = Unit
Came P (some (s, error)) = Unit

-- Only a command of the expected kind can come.
module _ (w : World) (expected : ℕ) (P : Session → Type 0) (asks : (expected == 0) ≡ false) where
  abbrev Leads : Session → Buf → ℕ → ℕ → Type 0
  Leads s buf len kind = Ensures (λ p. Came P (some p)) (dispatch w s buf len kind)

  serve-Leads :
      (s : Session) (rest : List Answer) (buf : Buf) (len kind : ℕ)
      → Leads (record s { socket = rest }) buf len kind
      → Ensures (Came P) (serve_reading w expected s (command buf len kind rest))
  serve-Leads s rest buf len kind h = branch _ (returns tt) (bind h λ p c. returns c)

  close-Leads : (s : Session) (buf : Buf) (len : ℕ) → Leads s buf len vns_close
  unfolding dispatch
  close-Leads s buf len = returns tt

  serve-Came :
      (s : Session) (r : Reading)
      → ((rest : List Answer) (buf : Buf) (len : ℕ)
          → r ≡ command buf len expected rest
          → Leads (record s { socket = rest }) buf len expected)
      → Ensures (Came P) (serve_reading w expected s r)
  serve-Came s never h = returns tt
  serve-Came s (refused rest) h = returns tt
  serve-Came s (command buf len kind rest) h =
      let t = record s { socket = rest } in
      elim (Bool-cases (kind == expected)) [
        | inl e ↦ serve-Leads s rest buf len kind (
            subst (Leads t buf len) (sym ((==_iff kind expected).0 e))
              (h rest buf len (ap (λ k. command buf len k rest) ((==_iff kind expected).0 e))))
        | inr e ↦ elim (Bool-cases (kind == vns_close)) [
          | inl f ↦
              serve-Leads s rest buf len kind (
                subst (Leads t buf len) (sym ((==_iff kind vns_close).0 f)) (close-Leads t buf len))
          | inr f ↦ rw (asks, e, f) (returns tt)
        ]
      ]

  expect-Came :
      (s : Session)
      → ((rest : List Answer) (buf : Buf) (len : ℕ)
          → read_command w.block s.socket ≡ done (command buf len expected rest)
          → Leads (record s { socket = rest }) buf len expected)
      → Ensures (Came P) (sr_read_from_server_expect w expected s)
  unfolding sr_read_from_server_expect
  expect-Came s h =
      bind (known (read_command w.block s.socket))
        λ r e. serve-Came s r (λ rest buf len same. h rest buf len (e ∙ ap done same))

-- The session `s'` is `s`, up to what was read from the socket, with these messages sent and tables written.
abbrev pub Follows : Session → List Buf → List (List ℕ × Buf) → Session → Type 0
Follows s replies tables s' =
    (s'.router ≡ s.router) × (s'.user ≡ s.user) × (s'.replies ≡ replies) × (s'.tables ≡ tables)

-- An authentication request was read and answered.
pub record IsRequested (w : World) (s s' : Session) : Type 0 where
  pub block : Buf
  pub size : ℕ
  pub reply : Buf
  pub read : read_command w.block s.socket ≡ done (command block size vns_auth_request s'.socket)
  pub answer : sr_handle_auth_request w.host s.user block size ≡ done (some reply)
  pub follows : Follows s (reply ∷ s.replies) s.tables s'

-- An authentication status was read, and it is good.
pub record IsAdmitted (w : World) (s s' : Session) : Type 0 where
  pub status : Buf
  pub size : ℕ
  pub read : read_command w.block s.socket ≡ done (command status size vns_auth_status s'.socket)
  pub good : sr_handle_auth_status status ≡ done true
  pub follows : Follows s s.replies s.tables s'

pub request-Came :
    (w : World) (s : Session)
    → Ensures (Came (IsRequested w s)) (sr_read_from_server_expect w vns_auth_request s)
unfolding dispatch
request-Came w s = expect-Came w vns_auth_request (IsRequested w s) refl s λ rest buf len read.
    bind (known (sr_handle_auth_request w.host s.user buf len))
      λ r e. returns (answer rest buf len r read e)
  where
    answer :
        (rest : List Answer) (buf : Buf) (len : ℕ) (r : Option Buf)
        → read_command w.block s.socket ≡ done (command buf len vns_auth_request rest)
        → sr_handle_auth_request w.host s.user buf len ≡ done r
        → Came (IsRequested w s) (some (answered (record s { socket = rest }) r))
    answer rest buf len none read e = tt
    answer rest buf len (some b) read e = record {
      block = buf;
      size = len;
      reply = b;
      read = read;
      answer = e;
      follows = (refl, refl, refl, refl);
    }

pub status-Came :
    (w : World) (s : Session)
    → Ensures (Came (IsAdmitted w s)) (sr_read_from_server_expect w vns_auth_status s)
unfolding dispatch
status-Came w s = expect-Came w vns_auth_status (IsAdmitted w s) refl s λ rest buf len read.
    bind (known (sr_handle_auth_status buf)) λ ok e. returns (answer rest buf len ok read e)
  where
    answer :
        (rest : List Answer) (buf : Buf) (len : ℕ) (ok : Bool)
        → read_command w.block s.socket ≡ done (command buf len vns_auth_status rest)
        → sr_handle_auth_status buf ≡ done ok
        → Came (IsAdmitted w s) (some (record s { socket = rest }, (if ok then more else error)))
    answer rest buf len true read e = record {
      status = buf;
      size = len;
      read = read;
      good = e;
      follows = (refl, refl, refl, refl);
    }
    answer rest buf len false read e = tt

pub table-Came :
    (w : World) (s : Session)
    → Ensures
        (Came (λ s'. (t : List ℕ × Buf) × Follows s s.replies (t ∷ s.tables) s'))
        (sr_read_from_server_expect w vns_rtable s)
unfolding dispatch
table-Came w s =
    expect-Came w vns_rtable (λ s'. (t : List ℕ × Buf) × Follows s s.replies (t ∷ s.tables) s') refl
      s (λ rest buf len read. next (sr_handle_rtable w.host buf len) λ t. returns (answer rest t))
  where
    answer :
        (rest : List Answer) (t : Option (List ℕ × Buf))
        → Came
            (λ s'. (t : List ℕ × Buf) × Follows s s.replies (t ∷ s.tables) s')
            (some (table_written (record s { socket = rest }) t))
    answer rest none = tt
    answer rest (some t) = (t, (refl, refl, refl, refl))
