-- ===== src/Ctcp/Sys.antt =====
-- The system layer below the transport, ctcp_sys_internal.c and ctcp_sys_internal.h.
pub mod Queue
pub mod Room
pub mod Drain
pub mod Input
pub mod Convert
pub mod Filter
pub mod Segments
pub mod Handshake
pub mod Loop
pub mod Unreliable
pub mod Connections
pub mod Examples
