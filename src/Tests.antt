-- ===== src/Tests.antt =====
-- Runs of the models at concrete inputs, and the theorems applied there.
mod Mutexes
mod Queues
mod Maps
mod Pools
mod Dinners
mod SharedLists
mod FineLists
mod Sorting
mod Joins
mod Reports
mod SharedMaps
mod Small
mod Printing
mod QueueBenches
