-- ===== src/Tests.antt =====
-- Runs of the model, and each theorem with hypotheses at an input.
mod BPlusTree
mod Trees
mod Nodes
mod Splits
mod MsgQueue
mod Strings
mod Shards
mod Stores
mod Engines
mod Worker
mod Leaves
