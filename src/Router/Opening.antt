-- ===== src/Router/Opening.antt =====
-- Opening a session with the server: `sr_connect_to_server` of sr_vns_comm.c. The resolver, the socket and the
-- connection are arguments.
pub mod Messages
mod Expected
pub mod Granted
pub mod Admits
use cs.Base.{
  ℕ, Bool, true, false, not, ◌==◌, List, [], ◌∷◌, length, ltb, if◌then◌else◌, Option, none, some,
  Run, done, ◌>>=◌, ◌>>◌, require,
}
use cs.Bytes.{Buf, byte_at, zeroed, fresh_buf, write, store16, store32, htons, htonl}
use cs.Router.Login.{id_size, Host}
use cs.Router.Client.{
  World, Session, Status, more, closed, error, vns_rtable, vns_auth_request, vns_auth_status,
  sr_read_from_server_expect,
}

abbrev pub vns_open : ℕ
vns_open = 1

abbrev pub vns_open_template : ℕ
vns_open_template = 64

-- sizeof(c_open)
abbrev pub open_size : ℕ
open_size = 108

-- sizeof(c_open_template)
abbrev pub template_size : ℕ
template_size = 70

-- Whether the server's name is known, a socket can be made, and the server answers.
pub record Uplink : Type 0 where
  pub found : Bool
  pub available : Bool
  pub reachable : Bool

-- The strings of the router, without terminators, and its topology. The array of the template has room for 30
-- characters.
pub record Identity : Type 0 where
  pub host : List ℕ
  pub template : List ℕ
  pub topo_id : ℕ

-- strncpy(b + off, s, n)
abbrev pub strncpy : Buf → ℕ → List ℕ → ℕ → Run Buf
strncpy b off s n = write b off n (byte_at s)

unfoldable pub open_message : Identity → List ℕ → Run Buf
open_message c user = do
  command ← store32 (zeroed open_size) 0 (htonl open_size)
  command ← store32 command 4 (htonl vns_open)
  command ← store16 command 8 (htons c.topo_id)
  command ← strncpy command 12 c.host id_size
  strncpy command 44 user id_size

unfoldable pub template_message : Identity → (ℕ → ℕ) → Run Buf
template_message c junk = do
  ot ← store32 (fresh_buf template_size junk) 0 (htonl template_size)
  ot ← store32 ot 4 (htonl vns_open_template)
  ot ← strncpy ot 8 c.template 30
  strncpy ot 38 c.host id_size

-- `strlen(sr->template) > 0`
abbrev pub has_template : Identity → Bool
has_template c = not (length c.template == 0)

unfoldable pub message : Identity → List ℕ → (ℕ → ℕ) → Run Buf
unfolding open_message template_message
message c user junk = do
  require (ltb (length c.template) 30)
  if has_template c then template_message c junk else open_message c user

-- How it ends: with 0, with -1, or never.
pub data Connection : Type 0 where
  established : Session → Connection
  abandoned : Session → Connection
  stalled : Connection

-- What comes after an expected command, if it came.
abbrev pub if_came : (Session → Run Connection) → Option (Session × Status) → Run Connection
if_came k none = done stalled
if_came k (some (s, more)) = k s
if_came k (some (s, closed)) = done (abandoned s)
if_came k (some (s, error)) = done (abandoned s)

unfoldable pub take_table : World → Identity → Session → Run Connection
take_table w c s =
    if has_template c
    then (do r ← sr_read_from_server_expect w vns_rtable s; if_came (λ s. done (established s)) r)
    else done (established s)

unfoldable pub open_session : World → Identity → Session → Run Connection
unfolding message take_table
open_session w c s = do
  buf ← message c s.user w.host.junk
  if w.host.can_send
      then take_table w c (record s { replies = buf ∷ s.replies })
      else done (abandoned s)

unfoldable pub after_request : (ℕ → World) → Identity → Session → Run Connection
unfolding open_session
after_request w c s = do
  r ← sr_read_from_server_expect (w 1) vns_auth_status s
  if_came (open_session (w 2) c) r

unfoldable pub sr_connect_to_server : Uplink → (ℕ → World) → Identity → Session → Run Connection
unfolding after_request
sr_connect_to_server net w c s =
    if not net.found
    then done (abandoned s)
    else if not net.available
    then done (abandoned s)
    else if not net.reachable
    then done (abandoned s)
    else do r ← sr_read_from_server_expect (w 0) vns_auth_request s; if_came (after_request w c) r
