-- ===== src/BPlusTree/Grow.antt =====
-- pmem_impl/bplustree.c: how an insertion grows the tree, from a leaf that splits up to a new root.
pub mod Open
pub mod Row
pub mod Segment
pub mod Room
pub mod Divide
pub mod Reopen
pub mod Split
pub mod Stock
pub mod Root
pub mod Adopt
pub mod Steps
pub mod Carry
pub mod Climb
pub mod LeafRow
pub mod OpenLeaf
pub mod LeafHas
pub mod LeafSplit
pub mod Insert
