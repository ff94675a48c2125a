-- ===== src/Typesystem.antt =====
-- pkg/typesystem/typesystem.go: authorization models, their lookup and their validation.
pub mod Model
pub mod Lookup
pub mod Rewrites
pub mod Restrictions
pub mod Cycles
pub mod Entrypoints
pub mod Accept
