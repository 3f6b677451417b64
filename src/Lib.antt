-- ===== src/Lib.antt =====
-- Models of the IP router of the first lab (neveisa-cs551/lab1/router) and of the transport of the third
-- (neveisa-cs551/lab3), with their proofs.
--
-- The router receives Ethernet frames from a socket to the simulated network and hands each one to
-- `sr_handlepacket`. It answers ARP requests for its interfaces, takes in ARP replies, answers echo
-- requests, and forwards every other IP packet to the gateway of the best route. A packet whose gateway
-- has no known hardware address waits in the queue of the ARP cache. A second thread wakes once a second,
-- drops old mappings and sends the waiting ARP requests again.
--
-- The transport, cTCP, carries the bytes of the input to the output of the other end. A segment that
-- comes in is acknowledged and put out when its turn comes; a segment that goes out waits for its
-- acknowledgement and is sent again after a timeout. `ctcp_timer` does both for all connections.
--
-- Files and code. The C files of Router are below neveisa-cs551/lab1/router, those of Ctcp below
-- neveisa-cs551/lab3.
--   Base          the tests on numbers, lists, and `Run`: a value, or undefined behaviour
--   Bytes         memory: blocks with a size, checked loads and stores, byte order, hardware addresses;
--                 Bytes/Patch and Bytes/Words say what a store leaves in memory
--   Checksum      `cksum` of sr_utils.c; Checksum/Laws says what it computes, Checksum/Header what that
--                 means for the headers the router writes
--   Router/State  the structs of sr_if.h, sr_rt.h, sr_arpcache.h and sr_router.h. The frames that were
--                 handed to `write` are part of the state, the newest first
--   Router/Interfaces   sr_if.c, and `ip_2_iface` and `mac_2_iface` of sr_router.c
--   Router/Hardware     `sr_handle_hwinfo` of sr_vns_comm.c, which fills the interface list
--   Router/Routes       `sr_add_rt_entry` of sr_rt.c, `find_best_route` and `target_ip_2_iface` of
--                       sr_router.c
--   Router/Table        `sr_load_rt` of sr_rt.c and `sr_verify_routing_table` of sr_main.c
--   Router/Cache        sr_arpcache.c without the sweep: lookup, queuereq, insert, destroy, init
--   Router/Send         `sr_send_packet` and the checks of addresses of sr_vns_comm.c
--   Router/Arp          the ARP branch of `sr_handlepacket`: `answer_request`, `take_reply`
--   Router/Forward      `forward_ip_packet`: `time_exceeded`, `age`, `transmit`
--   Router/Handle       the IP branch of `sr_handlepacket`: `echo_reply`, `port_unreachable`
--   Router/Sweep        `sr_arpcache_sweepreqs` and a round of `sr_arpcache_timeout`
--   Router/Safety, Router/Run   the router as a state machine
--   Router/Server       how `sr_read_from_server_expect` of sr_vns_comm.c reads a command: Server/Framing is about
--                       commands in pieces, Server/Ended about the end of the stream
--   Router/Login        `sr_handle_auth_request`, `sr_handle_auth_status` and `sr_handle_rtable` of sr_vns_comm.c
--   Router/Client       the rest of `sr_read_from_server_expect`, and the loop of `main` in sr_main.c, which runs
--                       the whole router on what the socket gives
--   Router/Opening      `sr_connect_to_server` of sr_vns_comm.c: Opening/Messages is about the messages that it sends,
--                       Opening/Expected, Opening/Granted and Opening/Admits about their order
--   Router/Start        `main` of sr_main.c from the options on, and `sr_init` of sr_router.c
--   Ctcp/State    the structs of ctcp.c and the fields of `ctcp_segment_t`
--   Ctcp/Bbr      the bandwidth filter of ctcp_bbr.h
--   Ctcp/Ack      `ship_ack`
--   Ctcp/Output   `ctcp_output`; Ctcp/Stream and Ctcp/Delivery set it against the stream of bytes
--   Ctcp/Receive  `ctcp_receive`; Ctcp/Session follows a connection from `ctcp_init` on
--   Ctcp/Sender   `ackwipe__tx_segments_unacked`
--   Ctcp/Ship     `ship_tx_node`
--   Ctcp/Flush    `tx_flush_conn` and `ctcp_timer`
--   Ctcp/Read     `ctcp_read`: Read/Cut is about the segments that it cuts, Read/Outgoing about sending
--                 them
--   Ctcp/Sys      the layer below in ctcp_sys_internal.c: Sys/Queue, Sys/Room and Sys/Drain are about the
--                 output queue (`conn_output`, `conn_bufspace`, and `conn_drain` up to its call of `ctcp_output`), Sys/Input about `conn_input`,
--                 Sys/Convert about the translation between segments and datagrams (Convert/Agree,
--                 Convert/Steps and Convert/Taken say what it leaves in memory, Convert/Fields and Convert/Round take it back),
--                 Sys/Filter about `recv_filter`, Sys/Segments about `create_tcp_seg` and `create_tcp_rst`,
--                 Sys/Handshake about `tcp_handshake` and `tcp_new_connection`,
--                 Sys/Loop about what `do_loop` does with a packet, all the way to `ctcp_receive`,
--                 Sys/Unreliable about `conn_send` and the faults that it makes: Unreliable/Sent and
--                 Unreliable/Bounded with them, Unreliable/Faultless without; Sys/Connections about the list of
--                 connections
--   Ctcp/Linked   ctcp_linked_list.c, on a heap: Linked/Cells and Linked/Links say what a list stands for,
--                 Linked/Shape what each pointer step does; Linked/Insert, Linked/After, Linked/Remove,
--                 Linked/Walk and Linked/Others are about the operations
--   Ctcp/Examples, and the Examples of Ctcp/Linked, Ctcp/Read, Ctcp/Sys and the folders below   the theorems
--                 on single segments, lists and connections
--   Router/Network, Router/Examples   a small network, and the theorems on it; the Examples of Router/Client and
--                 Router/Start are the theorems on single sessions
--
-- How the model corresponds to the code. A function that may meet undefined behaviour (an access out
-- of a block, a null pointer) or fail an assertion returns `Run`, and `fault` stands for either, with no claim on
-- what a machine would do. A theorem about whatever such a function returns says nothing of these two cases. An access is checked against the size of its block. Numbers in frames stand
-- as the bytes of a little-endian host, and unsigned arithmetic wraps by an explicit remainder; a `size_t` has 64 bits. A
-- list linked by pointers is a list outside Ctcp/Linked and Ctcp/Sys/Connections; a request carries its
-- address, by which it is destroyed. Time and the contents of uninitialised memory come from `Env`. Memory never runs out outside Ctcp/Linked, and the
-- router model has no use after free. The length that comes with a frame is the size of its buffer.
--
-- Concurrency. The cache's operations hold its lock from beginning to end and are atomic. Between two of
-- them in one handler the other thread may run: `Locked` and `Interleaved` allow every such order, for the cache. In `Reach`
-- and in the main loop the rounds of the timeout thread fall between two frames or commands, in any number.
--
-- Bounds and fuel. The folding loop of `cksum` runs on fuel 3: a 32-bit sum fits 17 bits after one round
-- and 16 after two. The loops of `ll_find`, `ll_destroy` and `delete_all_connections` follow pointers, on fuel:
-- any more than the list has nodes is enough. The main loop of the router runs on fuel: one round more than
-- the socket gives answers is enough. All other loops follow a list.
--
-- The parameters of the router's session. What the socket's reads give is a list of answers, and a read behind
-- its end does not return. `Host` holds the system's answers: the line of the file auth_key, the digest that
-- SHA-1 computes, and whether files can be written and messages sent; `Uplink` says whether the server can be
-- reached, and `System` holds the files and the user's name. `Library` holds what `sscanf` and
-- `inet_aton` find in a line.
--
-- The transport's parameters. `space` is what `conn_bufspace` reports, given what was handed to
-- `conn_output`, which takes all that fits. `to_uint32` converts a `double` to 32 bits. What
-- `conn_send` does with a frame does not matter to the code, which reads no result of it. A state that was
-- freed is a fault where it is read (Ctcp/Flush). The answers
-- of the kernel's `read`, `write`, `recv`, `sendto` and `fork` are arguments of Ctcp/Sys, and so is what `rand` gives.
--
-- Not modelled: the parsing of the router's command line (sr_main.c), dumps (sr_dumper.c) and prints, SHA-1
-- (sha1.c), the NAT skeleton that nothing calls (sr_nat); of the transport the gains and the round-trip times of BBR, which
-- only a log and an unread field get; of ctcp_sys_internal.c the rest of the event loop, the resets
-- for old connections, the options and the running of a program.
pub mod Base
pub mod Bytes
pub mod Checksum
pub mod Ctcp
pub mod Router
