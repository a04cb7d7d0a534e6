-- ===== src/FutureExt.antt =====
-- futures-util/src/future: the combinators of futures.
mod Tests
pub mod Flatten
pub mod Fuse
pub mod Map
pub mod Select
pub mod JoinAll
pub mod Join
pub mod MaybeDone
