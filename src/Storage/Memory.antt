-- ===== src/Storage/Memory.antt =====
-- pkg/storage/memory/memory.go: the in-memory datastore.
pub mod Match
pub mod Write
pub mod Keys
pub mod Changelog
pub mod Distinct
pub mod Consistent
pub mod Sanitize
pub mod Effect
pub mod Success
pub mod Read
pub mod Described
pub mod Paging
pub mod Usersets
pub mod Starting
pub mod Prefix
pub mod Pages
pub mod Models
pub mod Stores
pub mod Listing
pub mod Changes
