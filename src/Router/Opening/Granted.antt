-- ===== src/Router/Opening/Granted.antt =====
-- The order of the messages that open a session.
use cs.Base.{
  ℕ, ◌≡◌, sym, ap, Run-cases, ◌∙◌, Bool, true, false, not, List, ◌∷◌, Option, none, some, Run, done,
  Ensures, returns, undefined, bind, branch, ◌>>=◌, Bool-cases, inl, inr,
}
use cs.Bytes.{Buf}
use cs.Router.Client.{World, Session, Status, more, closed, error}
use cs.Router.Opening.{
  Uplink, Identity, has_template, message, Connection, established, abandoned, stalled, if_came,
  take_table, open_session, after_request, sr_connect_to_server,
}
use cs.Router.Opening.Expected.{
  Came, Follows, IsRequested, IsAdmitted, request-Came, status-Came, table-Came,
}

-- What an established session has behind it: the reply to the server's request, a good status, then the message that
-- opens the session, and with a template one routing table. The router has not changed.
pub record IsGranted (w : ℕ → World) (c : Identity) (s s' : Session) : Type 0 where
  pub asked : Session
  pub requested : IsRequested (w 0) s asked
  pub let_in : Session
  pub admitted : IsAdmitted (w 1) asked let_in
  pub opening : Buf
  pub is_message : message c s.user ((w 2).host.junk) ≡ done opening
  pub sent : s'.replies ≡ opening ∷ requested.reply ∷ s.replies
  pub same_router : s'.router ≡ s.router
  pub same_user : s'.user ≡ s.user
  pub no_table : has_template c ≡ false → s'.tables ≡ s.tables
  pub one_table : has_template c ≡ true → (t : List ℕ × Buf) × (s'.tables ≡ t ∷ s.tables)

abbrev pub Outcome : (ℕ → World) → Identity → Session → Connection → Type 0
Outcome w c s (established s') = IsGranted w c s s'
Outcome w c s (abandoned s') = Unit
Outcome w c s stalled = Unit

true-ne-false : {b : Bool} → b ≡ true → b ≡ false → ⊥
true-ne-false e f = cc

module _ (w : ℕ → World) (c : Identity) (s : Session) where
  if_came-Outcome :
      (P : Session → Type 0) {r : Run (Option (Session × Status))} (k : Session → Run Connection)
      → Ensures (Came P) r
      → ((s' : Session) → P s' → Ensures (Outcome w c s) (k s'))
      → Ensures (Outcome w c s) (r >>= if_came k)
  if_came-Outcome P k e h = bind e λ r p. go r p
    where
      go : (r : Option (Session × Status)) → Came P r → Ensures (Outcome w c s) (if_came k r)
      go none p = returns tt
      go (some (s', more)) p = h s' p
      go (some (s', closed)) p = returns tt
      go (some (s', error)) p = returns tt

  module _ (asked let_in : Session) (requested : IsRequested (w 0) s asked)
      (admitted : IsAdmitted (w 1) asked let_in) where
    take_table-Outcome :
        (s' : Session) (opening : Buf)
        → message c s.user ((w 2).host.junk) ≡ done opening
        → Follows s (opening ∷ requested.reply ∷ s.replies) s.tables s'
        → Ensures (Outcome w c s) (take_table (w 2) c s')
    unfolding take_table
    take_table-Outcome s' opening m (router, user, sent, tables) =
        elim (Bool-cases (has_template c)) [
          | inl e ↦ rw e (
              if_came-Outcome
                (λ s''. (t : List ℕ × Buf) × Follows s' s'.replies (t ∷ s'.tables) s'')
                (λ s''. done (established s'')) (table-Came (w 2) s')
                λ s'' (t, (router', user', sent', tables')). returns (record {
                  asked = asked;
                  requested = requested;
                  let_in = let_in;
                  admitted = admitted;
                  opening = opening;
                  is_message = m;
                  sent = sent' ∙ sent;
                  same_router = router' ∙ router;
                  same_user = user' ∙ user;
                  no_table = λ f. absurd (true-ne-false e f);
                  one_table = λ f. (t, tables' ∙ ap (λ l. t ∷ l) tables);
                }))
          | inr e ↦ rw e (
              returns (record {
                asked = asked;
                requested = requested;
                let_in = let_in;
                admitted = admitted;
                opening = opening;
                is_message = m;
                sent = sent;
                same_router = router;
                same_user = user;
                no_table = λ f. tables;
                one_table = λ f. absurd (true-ne-false f e);
              }))
        ]

    open_session-Outcome : Ensures (Outcome w c s) (open_session (w 2) c let_in)
    unfolding open_session ◌>>=◌
    open_session-Outcome =
        let (router, user, sent, tables) = requested.follows in
        let (router', user', sent', tables') = admitted.follows in
        let same = user' ∙ user in
        elim (Run-cases (message c let_in.user ((w 2).host.junk))) [
          | inl (buf, e) ↦ rw e (
              branch ((w 2).host.can_send)
                (take_table-Outcome (record let_in { replies = buf ∷ let_in.replies }) buf
                  (ap (λ u. message c u ((w 2).host.junk)) (sym same) ∙ e)
                  (router' ∙ router, same, ap (λ l. buf ∷ l) (sent' ∙ sent), tables' ∙ tables))
                (returns tt))
          | inr e ↦ rw e undefined
        ]

  after_request-Outcome :
      (s' : Session) → IsRequested (w 0) s s' → Ensures (Outcome w c s) (after_request w c s')
  unfolding after_request
  after_request-Outcome s' p =
      if_came-Outcome (IsAdmitted (w 1) s') (open_session (w 2) c) (status-Came (w 1) s')
        λ s'' q. open_session-Outcome s' s'' p q

pub sr_connect_to_server-IsGranted :
    (net : Uplink) (w : ℕ → World) (c : Identity) (s : Session)
    → Ensures (Outcome w c s) (sr_connect_to_server net w c s)
unfolding sr_connect_to_server
sr_connect_to_server-IsGranted net w c s = branch (not net.found) (returns tt) (
    branch (not net.available) (returns tt) (
      branch (not net.reachable) (returns tt) (
        if_came-Outcome w c s (IsRequested (w 0) s) (after_request w c) (request-Came (w 0) s)
          (after_request-Outcome w c s))))
