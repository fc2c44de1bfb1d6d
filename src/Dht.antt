-- ===== src/Dht.antt =====
-- The routing table of llarp/dht.
pub mod Bucket
mod Tests
