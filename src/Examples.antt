-- ===== src/Examples.antt =====
-- Concrete runs: the theorems applied where their hypotheses hold.
mod Tuples
mod Store
mod Reading
mod Changed
mod Starting
mod Checks
mod Resolved
mod Iterators
mod Requests
mod Models
mod Written
mod Catalog
mod Queues
