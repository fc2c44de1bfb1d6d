-- ===== src/Thread.antt =====
-- The bounded queue of llarp/util/thread.
pub mod QueueManager
pub mod Queue
mod Tests
