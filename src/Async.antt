-- ===== src/Async.antt =====
-- include/kotatsu/async and src/async: the runtime and its input buffer.
pub mod RingBuffer
pub mod Sync
pub mod Cancellation
