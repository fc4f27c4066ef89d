-- ===== src/Programs.antt =====
-- The small programs of src/: exercises 1, 2, 3 and 7.
pub mod Uncaught
pub mod Discarded
pub mod Shuffle
pub mod Output
pub mod Writing
pub mod Torn
