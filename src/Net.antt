-- ===== src/Net.antt =====
-- llarp/net.
pub mod Ip
mod Tests
