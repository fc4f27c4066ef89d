-- ===== src/Reporter.antt =====
-- src/x_start.cpp: the reporter that compares the benchmarks of a suite.
pub mod Names
pub mod Cleaned
pub mod Suite
pub mod Table
pub mod Widths
pub mod TableLaws
pub mod Main
pub mod Collected
pub mod Alike
pub mod Printed
pub mod Measures
pub mod Reports
