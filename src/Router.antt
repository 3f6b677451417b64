-- ===== src/Router.antt =====
-- The router of lab1/router: its state (`struct sr_instance` of sr_router.h), and a module for each
-- source file or handler.
pub mod State
pub mod Interfaces
pub mod Hardware
pub mod Routes
pub mod Cache
pub mod Send
pub mod Arp
pub mod Forward
pub mod Handle
pub mod Sweep
pub mod Safety
pub mod Run
pub mod Server
pub mod Login
pub mod Table
pub mod Client
pub mod Opening
pub mod Start
pub mod Network
pub mod Examples
