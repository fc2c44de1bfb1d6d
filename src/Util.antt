-- ===== src/Util.antt =====
-- Helpers of llarp/util.
pub mod CoDel
pub mod Buffer
pub mod Numerals
pub mod Bencode
pub mod DecayingHashSet
mod Tests
