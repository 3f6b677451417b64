-- ===== src/Ctcp/Examples.antt =====
-- The theorems about the transport, on a stream that counts and its first segment.
use cs.Base.{
  ℕ, zero, suc, ◌+◌, ◌%◌, ◌^◌, ◌≤◌, ◌<◌, ◌≡◌, refl, List, [], ◌∷◌, true, false, none, arith, All,
  done,
}
use cs.Bytes.{Buf, of_bytes}
use cs.Router.Network.{of_bytes-HasBytes}
use cs.Ctcp.State.{State, Bbr, Wrapped}
use cs.Ctcp.Bbr.{IsFilter}
use cs.Ctcp.Sender.{ackwipe, reaching, ackwipe-reaching}
use cs.Ctcp.Output.{bytes_from, ctcp_output}
use cs.Ctcp.Stream.{IsPart, IsDelivered, last_of}
use cs.Ctcp.Delivery.{ctcp_output-IsDelivered, ctcp_output-advances}
use cs.Ctcp.Receive.{IsFrom, IsReady, ctcp_receive, ctcp_receive-IsDelivered}
use cs.Ctcp.Sys.Queue.{conn_bufspace}
use cs.Ctcp.Session.{ctcp_init, Session, Session-output}

abbrev counting : ℕ → ℕ
counting i = i % 256

abbrev ample : List ℕ → ℕ
ample out = 2 ^ 31

abbrev same_number : ℕ → ℕ
same_number x = x

-- Two bytes from number 1, with an acknowledgement of 1.
abbrev first_bytes : List ℕ
first_bytes =
    0 ∷ 0 ∷ 0 ∷ 1 ∷ 0 ∷ 0 ∷ 0 ∷ 1 ∷ 0 ∷ 22 ∷ 0 ∷ 0 ∷ 16 ∷ 0 ∷ 0 ∷ 0 ∷ 0 ∷ 100 ∷ 0 ∷ 0 ∷ 1 ∷ 2 ∷ []

abbrev first : Buf
first = of_bytes first_bytes

abbrev held : Buf
held = record { len = 46; at = first.at }

abbrev start : State
start = record {
  recv_window = 1440;
  send_window = 1440;
  rt_timeout = 200;
  unacked = [];
  buffered = [];
  last_output = none;
  rx_fin = 0;
  tx_eof = 0;
  seqno_last_shipped = 0;
  receiver_has_acked = 0;
  next_ackno = 1;
  bbr = record {
    state = 0;
    bandwidths = 2 ∷ 0 ∷ 0 ∷ 0 ∷ 0 ∷ 0 ∷ 0 ∷ 0 ∷ 0 ∷ 0 ∷ [];
    index = 0;
    last_max = 0;
  };
  sent = [];
  output = [];
  closed = false;
}

first-counting : (j : ℕ) → j < 2 → first.at (20 + j) ≡ counting (1 + j)
first-counting zero h = refl
first-counting (suc zero) h = refl
first-counting (suc (suc j)) h = absurd (omega arith)

first-IsFrom : IsFrom counting first 22
first-IsFrom = record {
  bytes = of_bytes-HasBytes first_bytes refl;
  header = omega arith;
  whole = omega arith;
  inside = omega arith;
  first = omega arith;
  bound = omega arith;
  same = first-counting;
}

held-IsPart : IsPart counting held
held-IsPart = record {
  room = refl;
  payload = omega arith;
  first = omega arith;
  bound = omega arith;
  same = first-counting;
}

start-IsFilter : IsFilter start.bbr
start-IsFilter = record { size = refl; place = omega arith }

start-IsReady : IsReady start
start-IsReady = record { filter = start-IsFilter; unacked = tt }

start-IsDelivered : IsDelivered counting start
start-IsDelivered = record { part = tt; output = refl }

ctcp_receive-IsDelivered_example :
    (st' : State) × (ctcp_receive same_number ample start first 22 ≡ done st')
    × IsDelivered counting st'
    × (0 ≤ last_of st'.last_output)
    × All (IsPart counting) st'.buffered
ctcp_receive-IsDelivered_example =
    ctcp_receive-IsDelivered same_number ample counting first 22 first-IsFrom start start-IsReady tt
      start-IsDelivered

-- What the first segment makes of a new connection.
taken :
    (st' : State) × (ctcp_receive same_number ample (ctcp_init 1440 1440 200) first 22 ≡ done st')
unfolding ctcp_init
taken =
    let (st', e, _, _, _) =
      ctcp_receive-IsDelivered same_number ample counting first 22 first-IsFrom start start-IsReady
        tt start-IsDelivered in
    (st', e)

Session-output_example :
    (taken.0.output ≡ bytes_from counting 1 (last_of taken.0.last_output))
    × ((f : Buf) (len : ℕ)
        → IsFrom counting f len
        → (st' : State) × (ctcp_receive same_number ample taken.0 f len ≡ done st'))
Session-output_example =
    Session-output same_number ample counting 1440 1440 200
      (Session.received first 22 Session.opened first-IsFrom taken.1)

abbrev holding : State
holding = record start { buffered = held ∷ [] }

ctcp_output-IsDelivered_example :
    (st' : State) × (ctcp_output ample holding ≡ done st')
    × IsDelivered counting st'
    × (0 ≤ last_of st'.last_output)
    × All (IsPart counting) st'.buffered
ctcp_output-IsDelivered_example =
    ctcp_output-IsDelivered ample counting holding (held-IsPart, tt)
      (record { part = tt; output = refl })

-- The room of a connection in whose queue everything waits.
abbrev queued_space : List ℕ → ℕ
queued_space out = conn_bufspace (record {
  wrote_eof = false;
  wrote_err = false;
  delete_me = false;
  out_queue = record { buf = out; used = 0 } ∷ [];
  pollout = true;
  written = [];
})

ctcp_output-advances_example :
    (st' : State) × (ctcp_output queued_space holding ≡ done st')
    × IsDelivered counting st'
    × (2 ≤ last_of st'.last_output)
unfolding conn_bufspace
ctcp_output-advances_example =
    ctcp_output-advances queued_space counting holding held [] (omega arith) refl held-IsPart tt
      (record { part = tt; output = refl }) (omega arith) (omega arith)

abbrev ended : State
ended = record start { tx_eof = 100 }

abbrev waiting_segment : Wrapped
waiting_segment = record {
  num_xmits = 0;
  last_send = 0;
  actual_sendtime = 0;
  bytes_acked = 0;
  segment = first;
}

abbrev sending : State
sending = record start { unacked = waiting_segment ∷ [] }

ackwipe-reaching_example :
    (c : Bbr) × (ackwipe same_number sending 3
      ≡ done (record sending { bbr = c; unacked = []; receiver_has_acked = 3 }))
    × IsFilter c
    × (0 ≤ 3)
    × (3 ≤ 3)
unfolding reaching
ackwipe-reaching_example =
    ackwipe-reaching same_number sending 3 start-IsFilter (record { header = omega arith }, tt)
