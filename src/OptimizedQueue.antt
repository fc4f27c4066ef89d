-- ===== src/OptimizedQueue.antt =====
-- src/OptimizedThreadSafeQueue.h: a queue as a linked list with a dummy node at its end.
pub mod Memory
pub mod Methods
pub mod Destructor
pub mod Chain
pub mod Push
pub mod Pop
pub mod Destruct
pub mod Threads
pub mod Invariant
pub mod Steps
pub mod Reached
pub mod Safety
pub mod Progress
pub mod LostWakeup
pub mod Fine
