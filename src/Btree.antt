-- ===== src/Btree.antt =====
-- The B-tree: kernel/kds/btree.c and the lookup of kernel/kds/relation.c. Node and Rebalance have
-- the operations on the words of nodes, Tree those over pages; the other modules prove what they do.
pub mod Node
pub mod Search
pub mod Slots
pub mod Removal
pub mod Order
pub mod Rebalance
pub mod Lost
pub mod Program
pub mod Tree
pub mod Leaf
pub mod Tests
