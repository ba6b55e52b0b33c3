-- ===== src/BPlusTree.antt =====
-- pmem_impl/bplustree.c and bplustree.h: the B+ tree.
pub mod Node
pub mod Strcmp
pub mod Search
pub mod Leaf
pub mod NonLeaf
pub mod Links
pub mod Tree
pub mod Api
pub mod Grow
