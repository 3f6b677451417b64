-- ===== src/Ctcp/Sys/Unreliable.antt =====
-- Sending a segment, `conn_send` of ctcp_sys_internal.c with `flipbit` and `rand_percent` of ctcp_sys_internal.h, and
-- the faults that it makes on purpose: segments dropped, sent twice, late, or with a bit flipped. What `rand` gives, draw by
-- draw, and the answer of `sendto` are arguments; a forked process goes on with the draws of its parent. The options are
-- percentages and not negative. What is only printed or logged is left out.
mod Sent
mod Bounded
mod Faultless
mod Examples
use cs.Base.{
  ℕ, ◌+◌, ◌-◌, ◌*◌, ◌/◌, ◌%◌, ◌^◌, Bool, true, false, not, ◌&&◌, ◌||◌, ◌==◌, ltb, leb,
  if◌then◌else◌, List, [], ◌∷◌, ◌++◌, Option, none, some, Run, done, fault, ◌>>=◌, ◌>>◌, require,
}
use cs.Bytes.{Buf, load8, store8, memcpy, zeroed}
use cs.Ctcp.Sys.Convert.{Link, convert_to_datagram}
use cs.Ctcp.Sys.Filter.{full_hdr_size}

abbrev pub salt : ℕ
salt = 0x14400

-- test_debug_on, and the options.
pub record Faults : Type 0 where
  pub tester : Bool
  pub drop : ℕ
  pub duplicate : ℕ
  pub delay : ℕ
  pub corrupt : ℕ

-- tester_did_unreliable, and how many draws there were.
pub record Luck : Type 0 where
  pub did : Bool
  pub draws : ℕ

-- What a call of `conn_send` uses: `sendto` gives the number of bytes, or none for -1; whether the `fork` of a
-- duplicate and that of a delay, by its level, gives a new process or -1.
pub record Wire : Type 0 where
  pub rand : ℕ → ℕ
  pub faults : Faults
  pub link : Link
  pub sendto : Buf → Option ℕ
  pub forks_copy : Bool
  pub forks_late : ℕ → Bool

-- How the call ends in a process: by exit(0), or with a result, where none is -1.
pub data Fate : Type 0 where
  exited : Fate
  returned : Option ℕ → Fate

-- One of the processes that come of the call, and the packet that it sent.
pub record Process : Type 0 where
  pub sent : Option Buf
  pub fate : Fate
  pub luck : Luck

-- The sum is an `int`, and must not overflow.
unfoldable pub rand_percent : (ℕ → ℕ) → ℕ → ℕ → Run ℕ
rand_percent rand level k =
    let sum = rand k + level * salt in if ltb sum (2 ^ 31) then done (sum % 100) else fault

unfoldable pub flipbit : Buf → ℕ → Run Buf
flipbit segment bit = do
  byte ← load8 segment (bit / 8)
  let mask = 2 ^ (bit % 8)
  store8 segment (bit / 8) (if byte / mask % 2 == 1 then byte - mask else byte + mask)

-- Whether a fault is to be made. The tester makes one, without a draw.
unfoldable pub hits : Wire → ℕ → ℕ → Luck → Run (Bool × Luck)
unfolding rand_percent
hits w opt level l =
    if w.faults.tester
    then (let hit = not l.did && not (opt == 0) in done (hit, record l { did = l.did || hit }))
    else do
      percent ← rand_percent w.rand level l.draws
      let hit = ltb percent opt
      done (hit, record { did = l.did || hit; draws = l.draws + 1 })

-- The bit to flip, in 16 bits: behind the flags. A remainder by -1 is 0.
abbrev pub rand_bit : ℕ → ℕ → ℕ
rand_bit r len =
    let data_length = (len + 2 ^ 16 - 16) % 2 ^ 16 in
    ((if data_length == 0 then 0 else r % (data_length * 8 - 1)) + 128) % 2 ^ 16

abbrev pub sent_bytes : Option ℕ → Option ℕ
sent_bytes none = none
sent_bytes (some n) = if leb 20 n then some (n - 20) else some n

-- Whether the segment is to be corrupted; the draw is made in any case.
abbrev pub corrupts : Wire → Luck → ℕ → Bool
corrupts w l percent =
    if w.faults.tester
    then not l.did && not (w.faults.corrupt == 0)
    else ltb percent w.faults.corrupt

unfoldable pub send_copy : Wire → ℕ → Bool → Luck → Buf → ℕ → Run Process
unfolding rand_percent flipbit
send_copy w level forked l copy len = do
  percent ← rand_percent w.rand level l.draws
  let hit = corrupts w l percent
  copy ← (if hit then flipbit copy (rand_bit (w.rand (l.draws + 1)) len) else done copy)
  pkt ← convert_to_datagram w.link copy len
  require (leb ((full_hdr_size + len + 2 ^ 16 - 20) % 2 ^ 16) pkt.len)
  done (record {
    sent = some pkt;
    fate = if forked then exited else returned (sent_bytes (w.sendto pkt));
    luck = record { did = l.did || hit; draws = l.draws + 2 };
  })

-- Delayed, the segment is sent by a new process, which draws once for its sleep; the other one returns, also when
-- there is no new process.
unfoldable pub send_late : Wire → ℕ → Bool → Luck → Buf → ℕ → Run (List Process)
unfolding hits send_copy
send_late w level forked l copy len = do
  (hit, l) ← hits w w.faults.delay level l
  let old : Process = record { sent = none; fate = returned (some len); luck = l }
  if hit
      then (if w.forks_late level
          then (do
            child ← send_copy w (level + 1) true (record l { draws = l.draws + 1 }) copy len
            done (old ∷ child ∷ []))
          else done (old ∷ []))
      else do p ← send_copy w level forked l copy len; done (p ∷ [])

-- Duplicated, it is sent by two processes, if there is a new one.
unfoldable pub send_twice : Wire → Luck → Buf → ℕ → Run (List Process)
unfolding hits send_late
send_twice w l copy len = do
  (hit, l) ← hits w w.faults.duplicate 0 l
  if hit && w.forks_copy
      then (do
        child ← send_late w 1 true l copy len
        parent ← send_late w 0 false l copy len
        done (parent ++ child))
      else send_late w 0 false l copy len

unfoldable pub conn_send : Wire → Bool → Luck → Buf → ℕ → Run (List Process)
unfolding hits send_twice
conn_send w delete_me l segment len = do
  require (not delete_me)
  copy ← memcpy (zeroed len) 0 segment 0 len
  (hit, l) ← hits w w.faults.drop 0 l
  if hit
      then done (record { sent = none; fate = returned (some len); luck = l } ∷ [])
      else send_twice w l copy len
