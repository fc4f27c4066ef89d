-- ===== src/ThreadPool.antt =====
-- src/ThreadPool.h: workers that run the tasks of a queue, and clients that submit tasks and wait.
pub mod System
pub mod Invariant
pub mod Clients
pub mod Safety
pub mod Lifetime
pub mod Held
pub mod Completion
pub mod Ends
