-- ===== src/Router/Opening/Admits.antt =====
-- A server that lets the user in: `sr_connect_to_server` on the bytes of its commands.
use mathlib.Core.Path.{subst}
use cs.Base.{
  ℕ, ◌+◌, ◌-◌, ◌^◌, ◌≤◌, ◌<◌, ◌≡◌, ◌≢◌, refl, sym, ap, ◌∙◌, true, false, List, ◌∷◌, ◌++◌, length,
  ◌==◌, le→leb, arith, some, done, ◌>>=◌,
}
use cs.Bytes.{Buf, byte_at, word_at, of_bytes, htonl}
use cs.Router.Login.{
  auth_key_len, block_bytes, key_array, sr_handle_auth_request, sr_handle_auth_status,
}
use cs.Router.Login.Reply.{IsReply, sr_handle_auth_request-IsReply}
use cs.Router.Server.{Answer, max_command, command, read_command}
use cs.Router.Server.Framing.{Pieces, IsCommand, read_command-IsCommand}
use cs.Router.Client.{
  World, Session, vns_auth_request, vns_auth_status, dispatch, sr_read_from_server_expect,
}
use cs.Router.Opening.{
  Uplink, Identity, has_template, message, established, take_table, open_session, after_request,
  sr_connect_to_server,
}
use cs.Router.Opening.Messages.{IsMessage, message-IsMessage}

-- The steps of the opening, one after the other.
all_steps :
    (net : Uplink) (w : ℕ → World) (c : Identity) (s : Session) (req status reply opening : Buf)
    (m n : ℕ) (rest end : List Answer)
    → net.found ≡ true
    → net.available ≡ true
    → net.reachable ≡ true
    → has_template c ≡ false
    → read_command ((w 0).block) s.socket ≡ done (command req m vns_auth_request rest)
    → sr_handle_auth_request ((w 0).host) s.user req m ≡ done (some reply)
    → read_command ((w 1).block) rest ≡ done (command status n vns_auth_status end)
    → sr_handle_auth_status status ≡ done true
    → message c s.user ((w 2).host.junk) ≡ done opening
    → (w 2).host.can_send ≡ true
    → sr_connect_to_server net w c s
      ≡ done (established (record s { socket = end; replies = opening ∷ reply ∷ s.replies }))
unfolding sr_connect_to_server after_request open_session take_table sr_read_from_server_expect
    dispatch ◌>>=◌
all_steps net w c s req status reply opening m n rest end a b d e f g h i j k =
    rw (a, b, d, f, g, h, i, j, k, e) refl

-- Pieces of a command of this kind, with its length in front.
pub record IsFramed (kind : ℕ) (heads bodies : List Answer) (head body : List ℕ) : Type 0 where
  pub head_pieces : Pieces heads head
  pub body_pieces : Pieces bodies body
  pub word : length head ≡ 4
  pub length_field : htonl (word_at (of_bytes head) 0) ≡ 4 + length body
  pub low : 4 ≤ length body
  pub high : 4 + length body ≤ max_command
  pub kind_field : htonl (word_at (of_bytes body) 0) ≡ kind

framed-IsCommand :
    (junk : ℕ → ℕ) (kind : ℕ) (heads bodies : List Answer) (head body : List ℕ) (rest : List Answer)
    → IsFramed kind heads bodies head body
    → (b : Buf) × (read_command junk (heads ++ (bodies ++ rest))
        ≡ done (command b (4 + length body) kind rest))
      × IsCommand body b
framed-IsCommand junk kind heads bodies head body rest f =
    let (b, e, c) =
      read_command-IsCommand junk head body rest f.head_pieces f.body_pieces f.word f.length_field
        f.low f.high in
    (b, e ∙ ap (λ k. done (command b (4 + length body) k rest)) f.kind_field, c)

good_status : (b : Buf) → 9 ≤ b.len → b.at 8 ≢ 0 → sr_handle_auth_status b ≡ done true
unfolding sr_handle_auth_status ◌>>=◌
good_status b whole good =
    let set : (b.at 8 == 0) ≡ false = ground arith in rw (le→leb 9 b.len whole, set)

-- What the system must give: the network, the key and the digests of SHA-1, of 32-bit words, and the sending.
pub record IsReady (net : Uplink) (w : ℕ → World) (line : List ℕ) : Type 0 where
  pub found : net.found ≡ true
  pub available : net.available ≡ true
  pub reachable : net.reachable ≡ true
  pub key : (w 0).host.auth_key ≡ some line
  pub digests :
      (bs : List ℕ) → (d : ℕ → ℕ) × ((w 0).host.digest bs ≡ some d) × ((j : ℕ) → d j < 2 ^ 32)
  pub sends : (w 0).host.can_send ≡ true
  pub sends_opening : (w 2).host.can_send ≡ true

-- What comes of it: the reply to the request, and the message that opens the session.
pub record IsOpened (net : Uplink) (w : ℕ → World) (c : Identity) (s : Session) (line salt : List ℕ)
    (end : List Answer) : Type 0 where
  pub asking : Buf
  pub is_asking : IsCommand salt asking
  pub digest : ℕ → ℕ
  pub is_digest :
      (w 0).host.digest (
        block_bytes asking.at 8 (4 + length salt - 8)
        ++ block_bytes (key_array ((w 0).host) line) 0 auth_key_len)
      ≡ some digest
  pub reply : Buf
  pub is_reply : IsReply s.user digest reply
  pub opening : Buf
  pub is_opening : IsMessage false c s.user opening
  pub result :
      sr_connect_to_server net w c s
      ≡ done (established (record s { socket = end; replies = opening ∷ reply ∷ s.replies }))

-- A server that lets the user in, without a template: when the socket gives, in any pieces, an authentication request and
-- a status that is not 0, and the network, the key, SHA-1 and the sending work, then `sr_connect_to_server` succeeds. It has
-- sent the reply with the user's name and the digest of the request's salt and the key, and the message that opens the
-- session, and has read nothing behind the status. The user's name must be shorter than 32 characters.
pub sr_connect_to_server-IsOpened :
    (net : Uplink) (w : ℕ → World) (c : Identity) (s : Session)
    (heads salts heads' bodies : List Answer) (head salt head' status : List ℕ) (end : List Answer)
    (line : List ℕ)
    → IsReady net w line
    → has_template c ≡ false
    → length c.template < 30
    → c.topo_id < 2 ^ 16
    → length s.user < 32
    → IsFramed vns_auth_request heads salts head salt
    → IsFramed vns_auth_status heads' bodies head' status
    → 4 < length status
    → byte_at status 4 ≢ 0
    → s.socket ≡ heads ++ (salts ++ (heads' ++ (bodies ++ end)))
    → IsOpened net w c s line salt end
sr_connect_to_server-IsOpened net w c s heads salts heads' bodies head salt head' status end line
      ready plain short small few asks lets long good gives =
    let h = (w 0).host in
    let rest = heads' ++ (bodies ++ end) in
    let (req, e, is_request) =
      framed-IsCommand ((w 0).block) vns_auth_request heads salts head salt rest asks in
    let (b, f, is_status) =
      framed-IsCommand ((w 1).block) vns_auth_status heads' bodies head' status end lets in
    let (d, digest, words) = ready.digests (
      block_bytes req.at 8 (4 + length salt - 8)
      ++ block_bytes (key_array h line) 0 auth_key_len) in
    let low = asks.low in
    let high = asks.high in
    let size = is_request.size in
    let status_size = is_status.size in
    let (reply, answer, is_reply) =
      sr_handle_auth_request-IsReply h s.user line req (4 + length salt) d (omega arith)
        (omega arith) (omega arith) few words ready.key ready.sends digest in
    let (opening, built, is_opening) = message-IsMessage c s.user ((w 2).host.junk) small short in
    let set : b.at 8 ≢ 0 = λ z. good (sym (is_status.content 4 (omega arith) long) ∙ z) in
    record {
      asking = req;
      is_asking = is_request;
      digest = d;
      is_digest = digest;
      reply = reply;
      is_reply = is_reply;
      opening = opening;
      is_opening = subst (λ t. IsMessage t c s.user opening) plain is_opening;
      result =
          all_steps net w c s req b reply opening (4 + length salt) (4 + length status) rest end
            ready.found ready.available ready.reachable plain
            (ap (read_command ((w 0).block)) gives ∙ e) answer f (good_status b (omega arith) set)
            built ready.sends_opening;
    }
