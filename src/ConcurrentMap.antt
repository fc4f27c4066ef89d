-- ===== src/ConcurrentMap.antt =====
-- src/concurrent_map.h: a map behind a mutex, and the programs that use it.
pub mod Ordered
pub mod Lookup
pub mod Methods
pub mod Laws
pub mod Reentry
pub mod Programs
pub mod Bench
pub mod Threads
pub mod Calls
pub mod Linear
pub mod Turns
pub mod Readers
