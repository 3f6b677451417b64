-- ===== src/Router/Client.antt =====
-- The dispatch of commands in `sr_read_from_server_expect` of sr_vns_comm.c, and the main loop of sr_main.c with the timeout thread beside it. What
-- is only printed, logged or freed is left out.
pub mod Lived
pub mod Rounds
pub mod Commands
mod Examples
use cs.Base.{
  ℕ, zero, suc, ◌+◌, ◌-◌, ◌*◌, ◌/◌, ◌%◌, ◌^◌, Bool, not, ◌&&◌, ◌==◌, List, [], ◌∷◌, length, ltb,
  leb, if◌then◌else◌, Option, none, some, Run, done, fault, ◌>>=◌, ◌>>◌, require,
}
use cs.Bytes.{Buf, word_at, mac_at, fits, load32, htonl}
use cs.Router.State.{Iface, Instance, Env}
use cs.Router.Send.{sr_arp_req_not_for_us}
use cs.Router.Handle.{sr_handlepacket}
use cs.Router.Sweep.{sr_arpcache_timeout}
use cs.Router.Hardware.{HwEntry, hw_interface, hw_ether_ip, hw_ether, hw_other, sr_handle_hwinfo}
use cs.Router.Table.{sr_verify_routing_table}
use cs.Router.Server.{Answer, Reading, command, refused, never, read_command}
use cs.Router.Login.{
  Host, until_nul, sr_handle_rtable, sr_handle_auth_request, sr_handle_auth_status,
}

abbrev pub vns_close : ℕ
vns_close = 2

abbrev pub vns_packet : ℕ
vns_packet = 4

abbrev pub vns_hwinfo : ℕ
vns_hwinfo = 16

abbrev pub vns_rtable : ℕ
vns_rtable = 32

abbrev pub vns_auth_request : ℕ
vns_auth_request = 128

abbrev pub vns_auth_status : ℕ
vns_auth_status = 512

-- What one round takes from the system.
pub record World : Type 0 where
  pub host : Host
  pub env : Env
  pub block : ℕ → ℕ
  pub iface : Iface

-- The router, what the socket has still to give, the user's name, what was sent to the server, and the routing
-- tables that were written, the newest first.
pub record Session : Type 0 where
  pub router : Instance
  pub socket : List Answer
  pub user : List ℕ
  pub replies : List Buf
  pub tables : List (List ℕ × Buf)

-- The results 1, 0 and -1.
pub data Status : Type 0 where
  more : Status
  closed : Status
  error : Status

-- What lies behind an offset of a block.
abbrev pub block_from : Buf → ℕ → Buf
block_from b off = record { len = b.len - off; at = λ i. b.at (off + i) }

-- The name of an interface, which `strncmp` reads up to its terminator or 32 characters. It counts as read whole.
abbrev pub iface_name : Buf → Run (List ℕ)
iface_name b =
    let s = until_nul 32 b.at 8 in
    if fits b 8 (if ltb (length s) 32 then length s + 1 else 32) then done s else fault

-- The length of a frame, which wraps around where the command is too short for one.
abbrev pub frame_len : ℕ → ℕ
frame_len len = (len + 2 ^ 32 - 38 + 14) % 2 ^ 32

unfoldable pub take_packet : World → Instance → Buf → ℕ → Run Instance
take_packet w sr buf len = do
  name ← iface_name buf
  other ← sr_arp_req_not_for_us sr (block_from buf 24) (frame_len len) name
  if other then done sr else sr_handlepacket sr w.env (block_from buf 24) name

abbrev pub hw_entry : Buf → ℕ → HwEntry
hw_entry b off =
    let key = htonl (word_at b off) in
    if key == 1
    then hw_interface (until_nul 32 b.at (off + 4))
    else if key == 64
    then hw_ether_ip (word_at b (off + 4))
    else if key == 32
    then hw_ether (mac_at b (off + 4))
    else hw_other key

unfoldable pub hw_entries : Buf → ℕ → ℕ → Run (List HwEntry)
hw_entries b off zero = done []
hw_entries b off (suc n) = do
  require (fits b off 36)
  es ← hw_entries b (off + 36) n
  done (hw_entry b off ∷ es)

-- The number of entries, an `int`. The subtraction wraps around in the 64 bits of a `size_t`, and there are none where
-- the `int` is negative.
abbrev pub num_entries : ℕ → ℕ
num_entries len =
    let n = (len + 2 ^ 64 - 8) % 2 ^ 64 / 36 % 2 ^ 32 in if ltb n (2 ^ 31) then n else 0

unfoldable pub take_hwinfo : World → Instance → Buf → ℕ → Run (Instance × Status)
unfolding hw_entries
take_hwinfo w sr buf len = do
  entries ← hw_entries buf 8 (num_entries len)
  sr ← sr_handle_hwinfo w.iface sr entries
  done (sr, (if sr_verify_routing_table sr == 0 then more else error))

abbrev pub answered : Session → Option Buf → Session × Status
answered s none = (s, error)
answered s (some reply) = (record s { replies = reply ∷ s.replies }, more)

abbrev pub table_written : Session → Option (List ℕ × Buf) → Session × Status
table_written s none = (s, error)
table_written s (some table) = (record s { tables = table ∷ s.tables }, more)

abbrev pub with_router : Session → Instance → Session
with_router s sr = record s { router = sr }

-- The switch on the kind of a command.
unfoldable pub dispatch : World → Session → Buf → ℕ → ℕ → Run (Session × Status)
unfolding take_packet take_hwinfo
dispatch w s buf len kind =
    if kind == vns_packet
    then (do sr ← take_packet w s.router buf len; done (with_router s sr, more))
    else if kind == vns_close
    then done (s, closed)
    else if kind == vns_hwinfo
    then (do (sr, st) ← take_hwinfo w s.router buf len; done (with_router s sr, st))
    else if kind == vns_rtable
    then (do t ← sr_handle_rtable w.host buf len; done (table_written s t))
    else if kind == vns_auth_request
    then (do r ← sr_handle_auth_request w.host s.user buf len; done (answered s r))
    else if kind == vns_auth_status
    then (do ok ← sr_handle_auth_status buf; done (s, (if ok then more else error)))
    else done (s, more)

-- Whether a command is not the one that was expected, if one was. A close is always taken.
abbrev pub unexpected : ℕ → ℕ → Bool
unexpected expected kind =
    not (expected == 0) && (not (kind == expected) && not (kind == vns_close))

-- One command, or none if the read does not return.
abbrev pub serve_reading : World → ℕ → Session → Reading → Run (Option (Session × Status))
serve_reading w expected s never = done none
serve_reading w expected s (refused rest) = done (some (record s { socket = rest }, error))
serve_reading w expected s (command buf len kind rest) =
    if unexpected expected kind
    then done (some (record s { socket = rest }, error))
    else (do p ← dispatch w (record s { socket = rest }) buf len kind; done (some p))

unfoldable pub sr_read_from_server_expect : World → ℕ → Session → Run (Option (Session × Status))
unfolding dispatch
sr_read_from_server_expect w expected s = do
  reading ← read_command w.block s.socket
  serve_reading w expected s reading

unfoldable pub sr_read_from_server : World → Session → Run (Option (Session × Status))
unfolding sr_read_from_server_expect
sr_read_from_server w s = sr_read_from_server_expect w 0 s

-- How the main loop stands after some rounds: over, waiting for the socket, or still running.
pub data Served : Type 0 where
  ended : Session → Served
  blocked : Session → Served
  running : Session → Served

-- The loop goes on while the result is 1.
abbrev pub after_round : (Session → Run Served) → Session → Option (Session × Status) → Run Served
after_round k s none = done (blocked s)
after_round k s (some (s', more)) = k s'
after_round k s (some (s', closed)) = done (ended s')
after_round k s (some (s', error)) = done (ended s')

-- The rounds that the timeout thread makes before a command.
unfoldable pub sweeps : List Env → Instance → Run Instance
sweeps [] sr = done sr
sweeps (env ∷ envs) sr = do sr ← sr_arpcache_timeout env sr; sweeps envs sr

-- `while (sr_read_from_server(&sr) == 1);`, for at most so many commands, with the thread beside it: its rounds fall
-- between two commands, and none within a handler.
unfoldable pub main_loop : (ℕ → World) → (ℕ → List Env) → ℕ → Session → Run Served
unfolding sweeps sr_read_from_server
main_loop w t zero s = done (running s)
main_loop w t (suc n) s = do
  sr ← sweeps (t n) s.router
  r ← sr_read_from_server (w n) (with_router s sr)
  after_round (λ s'. main_loop w t n s') (with_router s sr) r
