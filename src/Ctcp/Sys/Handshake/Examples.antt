-- ===== src/Ctcp/Sys/Handshake/Examples.antt =====
-- A client and a server on two hosts.
use cs.Base.{◌≡◌, refl, true, false, arith, none, some, done}
use cs.Bytes.{Buf}
use cs.Ctcp.Sys.Filter.{th_syn}
use cs.Ctcp.Sys.Segments.{Numbers, create_tcp_seg}
use cs.Ctcp.Sys.Handshake.{
  Settings, Endpoint, conn_setup, tcp_new_connection, connected, tcp_handshake,
}
use cs.Ctcp.Sys.Handshake.Agreed.{AreSettings, IsAgreed, reply_of, tcp_handshake-IsAgreed}

abbrev client : Settings
client = record {
  own_addr = 16777343;
  own_port = 9999;
  on_web = false;
  unix_socket = false;
  recv_window = 1440;
}

abbrev server : Settings
server = record {
  own_addr = 33554559;
  own_port = 80;
  on_web = false;
  unix_socket = false;
  recv_window = 2880;
}

client-AreSettings : AreSettings client
client-AreSettings = record {
  addr_low = omega arith;
  port_low = omega arith;
  window_low = omega arith;
}

server-AreSettings : AreSettings server
server-AreSettings = record {
  addr_low = omega arith;
  port_low = omega arith;
  window_low = omega arith;
}

tcp_handshake-IsAgreed_example :
    (syn : Buf) × (reply : Buf) × (ack : Buf) × (n : Numbers) × (s : Endpoint) × (c' : Endpoint)
    × (create_tcp_seg
          (conn_setup client 33554559 80 2147483647).link
          1440
          (conn_setup client 33554559 80 2147483647).numbers
          th_syn
          none
          0
        ≡ done (syn, n))
    × (tcp_new_connection server true 9 5 syn ≡ done (some (s, reply)))
    × (tcp_handshake client
          (conn_setup client 33554559 80 2147483647)
          (λ p. true)
          (λ p. reply_of (tcp_new_connection server true 9 5 p))
        ≡ done (connected c' (some ack)))
    × IsAgreed client server c' s
tcp_handshake-IsAgreed_example =
    tcp_handshake-IsAgreed client server 2147483647 5 client-AreSettings server-AreSettings
      (omega arith) (omega arith) 9 (λ p. true) (omega arith) refl refl (λ p. refl)
