-- ===== src/Dns.antt =====
-- The names of llarp/dns.
pub mod Name
mod Tests
