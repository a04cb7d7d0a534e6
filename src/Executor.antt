-- ===== src/Executor.antt =====
-- futures-executor: what the thread pool shares between the threads that wake a task and the one that
-- polls it.
mod Tests
pub mod UnparkMutex
