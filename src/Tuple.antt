-- ===== src/Tuple.antt =====
-- pkg/tuple/tuple.go: relationship tuples, their strings, and the checks on these.
pub mod Key
pub mod Split
pub mod Valid
pub mod User
pub mod Parse
pub mod Slices
pub mod Grammar
pub mod Userset
pub mod Lacks
pub mod ParsePrint
pub mod UserForms
pub mod UserRoundTrip
pub mod Order
