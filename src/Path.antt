-- ===== src/Path.antt =====
-- The onion paths of llarp/path.
pub mod Hop
pub mod Build
pub mod Transit
pub mod Layers
pub mod Journey
pub mod Queueing
pub mod Onion
pub mod Links
pub mod Built
pub mod Work
pub mod Upstream
pub mod Downstream
pub mod Delivery
pub mod Status
pub mod Timers
pub mod Handlers
pub mod BuildStatus
pub mod Ticks
pub mod Blame
pub mod Runs
pub mod Latency
pub mod Ready
mod Tests
