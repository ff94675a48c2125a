-- ===== src/Check.antt =====
-- internal/graph: the answers of a check and the reducers that combine them.
pub mod Response
pub mod Reduce
pub mod Exclude
pub mod Verdict
pub mod Orders
pub mod Request
pub mod Direct
pub mod Dispatches
pub mod Resolve
pub mod Derivation
pub mod Found
pub mod Outcomes
pub mod Excluded
pub mod Messages
pub mod Grounds
pub mod Dispatched
pub mod Sound
pub mod Total
pub mod Ends
