-- ===== src/Storage.antt =====
-- pkg/storage: the records that a datastore keeps, the in-memory datastore and tuple iterators.
pub mod Record
pub mod Memory
pub mod Iterators
