-- ===== src/Router/Server.antt =====
-- How `sr_read_from_server_expect` of sr_vns_comm.c takes one command from the socket. The socket is the list of
-- what its reads give, in this order; where the list ends, the read does not return.
pub mod Framing
pub mod Ended
use cs.Base.{
  ℕ, ◌+◌, ◌-◌, ◌<◌, List, [], ◌∷◌, ◌++◌, length, ltb, leb, if◌then◌else◌, Run, done, fault, ◌>>=◌,
}
use cs.Bytes.{Buf, byte_at, load32, store32, memcpy, fresh_buf, of_bytes, htonl}

-- What `recv` or `read` gives: bytes (none at the end of the stream), -1 with EINTR, or -1.
pub data Answer : Type 0 where
  bytes : List ℕ → Answer
  interrupted : Answer
  broken : Answer

-- How one of the two loops ends: with its bytes, with an error, or never.
pub data Filled : Type 0 where
  filled : List ℕ → List Answer → Filled
  failed : List Answer → Filled
  waiting : Filled

-- `want` bytes in all, of which `got` are there. A read never gives more than it was asked for.
unfoldable pub fill : ℕ → List ℕ → List Answer → Run Filled
fill want got [] = done (if leb want (length got) then filled got [] else waiting)
fill want got (bytes bs ∷ rest) =
    if leb want (length got)
    then done (filled got (bytes bs ∷ rest))
    else if leb (length got + length bs) want
    then fill want (got ++ bs) rest
    else fault
fill want got (interrupted ∷ rest) =
    if leb want (length got) then done (filled got (interrupted ∷ rest)) else fill want got rest
fill want got (broken ∷ rest) =
    if leb want (length got) then done (filled got (broken ∷ rest)) else done (failed rest)

-- One command, with its length and the kind turned to the host's order.
pub data Reading : Type 0 where
  command : Buf → ℕ → ℕ → List Answer → Reading
  refused : List Answer → Reading
  never : Reading

abbrev pub max_command : ℕ
max_command = 10000

unfoldable pub take_body : Buf → ℕ → Filled → Run Reading
take_body buf len (failed rest) = done (refused rest)
take_body buf len waiting = done never
take_body buf len (filled body rest) = do
  buf ← memcpy buf 4 (of_bytes body) 0 (len - 4)
  kind ← load32 buf 4
  buf ← store32 buf 4 (htonl kind)
  done (command buf len (htonl kind) rest)

-- `junk` is what malloc leaves in the block. A negative length is a large one here.
unfoldable pub take_head : (ℕ → ℕ) → Filled → Run Reading
unfolding fill take_body
take_head junk (failed rest) = done (refused rest)
take_head junk waiting = done never
take_head junk (filled head rest) = do
  word ← load32 (of_bytes head) 0
  let len = htonl word
  if ltb max_command len then done (refused rest) else do
    buf ← store32 (fresh_buf len junk) 0 (htonl len)
    body ← fill (len - 4) [] rest
    take_body buf len body

unfoldable pub read_command : (ℕ → ℕ) → List Answer → Run Reading
unfolding take_head fill
read_command junk answers = do head ← fill 4 [] answers; take_head junk head
