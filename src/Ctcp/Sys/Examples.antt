-- ===== src/Ctcp/Sys/Examples.antt =====
-- A connection with five bytes in its queue, two of them written.
use cs.Base.{ℕ, zero, suc, ◌≡◌, refl, List, [], ◌∷◌, ◌++◌, false, true, done}
use cs.Ctcp.Sys.Queue.{
  count, again, Writer, Conn, Result, conn_output, handed, Keeps, conn_output-Keeps,
}
use cs.Ctcp.Sys.Drain.{drain_queue, drain_queue-handed}

abbrev busy : Conn
busy = record {
  wrote_eof = false;
  wrote_err = false;
  delete_me = false;
  out_queue = record { buf = 3 ∷ 4 ∷ 5 ∷ 6 ∷ 7 ∷ []; used = 2 } ∷ [];
  pollout = true;
  written = 1 ∷ 2 ∷ 3 ∷ 4 ∷ [];
}

-- Room for two bytes.
abbrev two_bytes : Writer
two_bytes size = elim size [ zero ↦ again | suc zero ↦ count 1 | suc (suc n) ↦ count 2 ]

conn_output-Keeps_example :
    (p : Conn × Result) × (conn_output busy (8 ∷ 9 ∷ []) two_bytes ≡ done p)
    × Keeps busy (8 ∷ 9 ∷ []) p
conn_output-Keeps_example = conn_output-Keeps busy (8 ∷ 9 ∷ []) two_bytes refl

drain_queue-handed_example :
    (handed (drain_queue busy (two_bytes ∷ [])).0 ≡ handed busy)
    × (out : List ℕ) × ((drain_queue busy (two_bytes ∷ [])).0.written ≡ busy.written ++ out)
drain_queue-handed_example = drain_queue-handed busy (two_bytes ∷ [])
