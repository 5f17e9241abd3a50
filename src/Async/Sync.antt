-- ===== src/Async/Sync.antt =====
-- include/kotatsu/async/runtime/sync.h and src/async/runtime/sync.cpp: mutexes, semaphores, events and
-- condition variables, the waits queued on them, and what the event loop does with a granted wait.
pub mod State
pub mod Primitives
pub mod WaitNode
pub mod Fair
pub mod Wakes
pub mod Waits
pub mod Cancels
pub mod Rounds
pub mod Reach
pub mod Grants
mod Tests
