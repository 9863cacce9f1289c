-- ===== src/Sync.antt =====
-- MultiThreadAndMutex/BHSync.hpp: the spin locks, the semaphore and the task groups.
pub mod Spin
pub mod ReadWrite
pub mod Recursive
pub mod Semaphore
pub mod Groups
mod Examples
