-- ===== src/Ctcp/Sys/Handshake.antt =====
-- How a connection begins: `conn_setup` of ctcp_sys_internal.h, `tcp_new_connection` and `tcp_handshake` of
-- ctcp_sys_internal.c. What `rand` gives, the number of clients (which the code counts up) and the answer to
-- the SYN are arguments, and every packet is sent. The state that `ctcp_init` makes is that of Ctcp, and the
-- list of connections is left to the caller. The layout of a packet is that of Ctcp/Sys/Convert.
mod Steps
mod Agreed
mod Examples
use cs.Base.{
  ℕ, ◌+◌, ◌-◌, ◌%◌, ◌^◌, Bool, not, ◌==◌, leb, if◌then◌else◌, [], ◌∷◌, Option, none, some, Run,
  done, ◌>>=◌, bit_and,
}
use cs.Bytes.{Buf, load8, load16, load32, htons, htonl}
use cs.Ctcp.Sys.Convert.{Link, th_ack}
use cs.Ctcp.Sys.Filter.{th_syn, Filtered, failed, dropped, exited, received, recv_filter}
use cs.Ctcp.Sys.Segments.{Numbers, create_tcp_seg}

abbrev pub max_num_clients : ℕ
max_num_clients = 10

abbrev pub th_syn_ack : ℕ
th_syn_ack = 18

-- The host's settings.
pub record Settings : Type 0 where
  pub own_addr : ℕ
  pub own_port : ℕ
  pub on_web : Bool
  pub unix_socket : Bool
  pub recv_window : ℕ

-- A connection, and the window that its peer told.
pub record Endpoint : Type 0 where
  pub link : Link
  pub numbers : Numbers
  pub send_window : ℕ

abbrev pub conn_setup : Settings → ℕ → ℕ → ℕ → Endpoint
conn_setup h addr port random = record {
  link = record {
    ip_addr = h.own_addr;
    port = h.own_port;
    peer_addr = addr;
    peer_port = port;
    init_seqno = random;
    their_init_seqno = 0;
    web = h.on_web;
  };
  numbers = record { seqno = 0; next_seqno = random; ackno = 0 };
  send_window = 0;
}

-- The connection for a SYN, before it is answered.
unfoldable pub syn_received : Settings → ℕ → Buf → Run Endpoint
syn_received h random pkt = do
  saddr ← load32 pkt 12
  sport ← load16 pkt 20
  seq ← load32 pkt 24
  window ← load16 pkt 34
  let c = conn_setup h saddr (htons sport) random
  done (record {
    link = record c.link { their_init_seqno = htonl seq };
    numbers = record c.numbers { ackno = (htonl seq + 1) % 2 ^ 32 };
    send_window = htons window;
  })

-- A server takes a SYN: the new connection and the SYN-ACK.
unfoldable pub tcp_new_connection : Settings → Bool → ℕ → ℕ → Buf → Run (Option (Endpoint × Buf))
unfolding syn_received
tcp_new_connection h server num_connected random pkt =
    if not server then done none else if leb max_num_clients num_connected then done none else do
      c ← syn_received h random pkt
      (p, n) ← create_tcp_seg c.link h.recv_window c.numbers th_syn_ack none 0
      done (some (record c { numbers = n }, p))

-- How a client's handshake ends.
pub data Shaken : Type 0 where
  connected : Endpoint → Option Buf → Shaken
  nothing : Shaken
  ended : Shaken

-- The client takes the answer to its SYN, and sends an ACK if it is a SYN-ACK.
unfoldable pub take_synack : Settings → Endpoint → Buf → Run Shaken
take_synack h c pkt = do
  window ← load16 pkt 34
  flags ← load8 pkt 33
  seq ← load32 pkt 24
  ack ← load32 pkt 28
  let their = htonl seq
  let own = (htonl ack + 2 ^ 32 - 1) % 2 ^ 32
  let l = record c.link { their_init_seqno = their }
  let n = record c.numbers {
    next_seqno = (c.numbers.next_seqno + 1) % 2 ^ 32;
    ackno = (their + 1) % 2 ^ 32;
  }
  if bit_and flags th_syn == 0
      then done (
          connected
            (record {
              link = record c.link {
                init_seqno = own;
                their_init_seqno = (their + 2 ^ 32 - 1) % 2 ^ 32;
              };
              numbers = record c.numbers { next_seqno = (own + 1) % 2 ^ 32; ackno = their };
              send_window = htons window;
            })
            none)
      else do
        (p, m) ← create_tcp_seg l h.recv_window n th_ack none 0
        done (connected (record { link = l; numbers = m; send_window = htons window }) (some p))

abbrev pub take_answer : Settings → Endpoint → Option Buf → Filtered → Run Shaken
take_answer h c none f = done nothing
take_answer h c (some pkt) failed = done nothing
take_answer h c (some pkt) dropped = done nothing
take_answer h c (some pkt) exited = done ended
take_answer h c (some pkt) (received n conn) = take_synack h c pkt

-- Whether the SYN is sent, and what comes in after it, are arguments. The result of sending the ACK is not looked at.
unfoldable pub tcp_handshake : Settings → Endpoint → (Buf → Bool) → (Buf → Option Buf) → Run Shaken
unfolding recv_filter take_synack
tcp_handshake h c can_send answer = do
  (p, n) ← create_tcp_seg c.link h.recv_window c.numbers th_syn none 0
  if not (can_send p) then done ended else do
    let d = record c { numbers = n }
    f ← recv_filter h.unix_socket h.own_port (d.link ∷ []) (answer p)
    take_answer h d (answer p) f
