-- ===== src/Lock.antt =====
-- futures-util/src/lock
mod Tests
pub mod BiLock
pub mod Mutex
