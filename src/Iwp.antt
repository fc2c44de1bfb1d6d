-- ===== src/Iwp.antt =====
-- The link layer of llarp/iwp: packets, messages in fragments, and the session that exchanges them.
pub mod Packet
pub mod Fragments
pub mod Outbound
pub mod Inbound
pub mod Session
pub mod Transfer
mod Inputs
mod Tests
