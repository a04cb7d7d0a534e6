-- ===== src/Mpsc.antt =====
-- futures-channel/src/mpsc: the channels with many senders and one receiver.
pub mod Word
pub mod Queue
pub mod Bounded
