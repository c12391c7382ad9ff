-- ===== src/Threads.antt =====
-- The thread library of Assignment_1_Final/thread_library.c.
pub mod Memory
pub mod Queues
pub mod Chain
pub mod Grow
pub mod Semaphores
pub mod Count
pub mod Counter
pub mod Schedule
pub mod Unblock
pub mod Order
pub mod Block
pub mod Wake
pub mod Search
mod Tests
