-- ===== src/Lib.antt =====
-- A model of the storage engine OpenHiKV, with the theorems that make its parts correct.
--
-- The B+ tree (pmem_impl/bplustree.c, pmem_impl/bplustree.h), module BPlusTree:
--   Node       the arrays of `struct bplus_leaf` and `struct bplus_non_leaf`, as functions of an index,
--              and the lists that they hold
--   Search     `key_binary_search`, over a record of the comparisons that `use_strcmp` chooses
--   Strcmp     `my_strcmp`, over a memory of bytes
--   Leaf       insertion into a leaf, its two splits, removal, borrowing and merging
--   NonLeaf    the same for non-leaf nodes: insertion and the three splits; NonLeaf/Balance has
--              removal, borrowing and merging
--   Links      the doubly linked lists of bplustree.h; Links/Laws has rings of links, and Links/Leaves the
--              ring of the leaves and the entries along it, where a leaf is split
--   Tree       `struct bplus_tree` with the memory of its nodes, allocation and the preallocated
--              pool, `bplus_tree_search`; Tree/Insert and Tree/Delete follow the parent pointers
--   Tree/Shape the invariant of a search tree in memory: parents and sub-nodes, depths, and keys. The
--              links between siblings and the least number of entries of a node are no part of it, so
--              the theorems on a whole tree say nothing of them; Tree/Search, Tree/Put and Tree/Take have the search,
--              and insertion and deletion where the leaf keeps room, in such memory
--   Grow       insertion with splits, from the leaf up: a tree that is open at one node, where two
--              sub-nodes wait for a place (Open, Row, Segment), a node that takes them or is split
--              (Room, Divide, Split, Reopen), a new root (Root, Adopt), the pool that lasts for each
--              level (Stock), the way up (Steps, Carry, Climb) and the leaf it starts from (LeafRow,
--              OpenLeaf, LeafHas, LeafSplit), to the whole of `bplus_tree_insert` (Insert)
--   Api        `bplus_tree_init`, `bplus_tree_get`, `bplus_tree_put`, `bplus_tree_get_range`; Api/Agree,
--              Api/Free, Api/Put and Api/First have the pool's nodes, and gets behind puts; Api/Map is
--              the tree as a map, Api/Tall how high a tree is, Api/Runs runs of puts and a get
--
-- The message queue (pmem_impl/pmem_msg_queue_impl.cpp, msg_queue.h), module MsgQueue: one shard,
-- `MessageQueueUnit`, each method one step under the mutex.
--   Consume    the loop of `MayConsumeNotifyMessages`
--   Threads    the writers, the consumer and the readers of a shard, as a list of actions; a reader's
--              version is the counter as it was some messages ago
--   Invariant  what each method keeps for the threads blocked on `cv_`; Wakeup, Sleep and Order have
--              the invariant of a shard, who sleeps when, and the order of the messages
--   Shards     `MessageQueueImpl`: `Hash`, the shard of a message, the order of `WaitDrain`; Shards/Reach
--              has a string for each shard
--   Worker     the thread that `RegisterConsumeFunction` starts for a shard, with `ConsumeMessageQueue`
--              as its function, one step at a time among the steps of the other threads
--              (Worker/Standing, Worker/Up), its return (Worker/Close) and the destructor's messages
--              (Worker/Shut)
-- The counters are kept modulo 2 ^ 64. A wake-up without a notification is not an action: it would
-- test a predicate once more. The consumer pops only what it has peeked at, as `ConsumeMessageQueue` of
-- open_hikv.cpp does.
--
-- The engine (open_hikv.cpp, open_hikv.h), over interfaces of its parts:
--   Types      `ErrorCode` and `Slice`: the bytes a slice points to
--   Dict       `std::map` and `std::unordered_map` under strings, as ascending lists of pairs
--   Store      store.h: a record of the methods and of what their clients rely on. Store/Plain is the
--              store in a hash map (plain_vanilla_impl/plain_store_impl.cpp), Store/Pmem the one in
--              mapped files (pmem_impl/pmem_store_impl.cpp) over a memory of bytes, Store/Bytes
--   Index      over any store: Index/Unordered and Index/Ordered are the in-memory indexes of
--              plain_vanilla_impl, Index/Hash the index in hashed entries
--              (pmem_impl/pmem_unordered_index_impl.cpp), Index/Pmem the index over the B+ tree
--              (pmem_impl/pmem_ordered_index_impl.cpp), whose keys are addresses of strings
--   MsgQueue/Plain  the queue of plain_vanilla_impl/plain_msg_queue_impl.cpp
--   Engine     `OpenHiKV` over any store, with the in-memory indexes and queue: `Get`, `Set`, `Del`,
--              `Scan`, `ConsumeMessageQueue`, and the rounds of the queue's worker; Engine/Keep has the
--              invariant, Engine/Runs and Engine/Scan what a reader sees
-- A store says of a state whether an entry fits: the plain one while its 64-bit offset does not wrap,
-- the mapped one where the entry is no longer than a table of 2 ^ 22 bytes. `pmem_map_file` is a
-- function from the number of a file to an address, and the files lie apart. `Set` and `Del` of the
-- engine are one step each; between them the worker does any number of rounds. `Scan` has a list of
-- sleeps, in each of which the worker does some rounds, and no other thread acts; rounds for the
-- messages that wait are enough. The probe of the hashed index has a fuel of rounds: as many as there
-- are mapped entries from the first one of the key on, and one more, are enough; it may end at an entry
-- that is not mapped.
--
-- How the code is read. A pointer is a number, 0 is NULL. The memory is one function for each kind
-- of node and each field of their common header, so fields never overlap; a cast between the node
-- types is the same address. `long long` keys and values are unbounded integers, counts and array
-- indices are natural numbers, and -1 and -i - 1 are `negsuc 0` and `negsuc i`. A loop is a
-- recursion over its variables and the rounds that are left. Recursion along the levels of the tree
-- has a fuel of `level + 2`: one round for each level and one to see NULL; where it is too small, a
-- call returns `no_fuel`. A failed `assert` returns `aborted`, but some are not tests of the model:
-- those on `j` in `leaf_split_right` and `non_leaf_split_right2`, which Leaf/Split and
-- NonLeaf/Split/Around are about, and those on what `calloc` returns, as it never fails here.
-- `free` marks a node as free and never lets its address be used again, so a read of a freed node
-- is not seen as one. `aborted` is also a new root for which `struct bplus_tree` has no list head:
-- there are `BPLUS_MAX_LEVEL` of them, 10. A tree of level n whose leaves are filled holds at least
-- 2 ^ n keys, so 2 ^ 9 puts behind `bplus_tree_init` never need an eleventh. `_xbegin()` is a list
-- of outcomes, a parameter. The two calls of `non_leaf_insert` and `parent_node_build` in a circle
-- are one recursion: the latter takes the former, one level further up, as an argument.
--
-- The tree takes any comparison: `by_value`, or `by_strcmp` of Index/Pmem.
--
-- Not modelled: the debug dump, `bplus_tree_deinit`, `printf`; the join of the worker threads;
-- the engine over the sharded queue or the indexes of pmem_impl; a thread that writes between the test
-- and the swap of another in the hashed index; cache flushes, and pmem_impl/cpu.c and
-- pmem_impl/pmem_op.cpp, which are copies of files of PMDK and TerarkDB.
pub mod Base
pub mod Types
pub mod Dict
pub mod Store
pub mod BPlusTree
pub mod MsgQueue
pub mod Index
pub mod Engine
mod Tests
