-- ===== src/Ctcp.antt =====
-- The transport of the third lab: ctcp.c and the bandwidth filter of ctcp_bbr.h.
pub mod State
pub mod Bbr
pub mod Ack
pub mod Output
pub mod Stream
pub mod Delivery
pub mod Sender
pub mod Ship
pub mod Flush
pub mod Receive
pub mod Session
pub mod Linked
pub mod Read
pub mod Sys
pub mod Examples
