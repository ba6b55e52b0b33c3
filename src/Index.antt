-- ===== src/Index.antt =====
-- The two indexes: from a key to the offset of its entry in the store.
pub mod Unordered
pub mod Ordered
pub mod Hash
pub mod Pmem
