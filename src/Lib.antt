-- ===== src/Lib.antt =====
-- Models and theorems for the storage engine of kdbs, a database in the Linux kernel.
--
-- The engine keeps fixed-size logical pages (8192 bytes) in frames. On them stand heap pages with
-- rows (kernel/kds/heap.c), undo pages with the versions that updates replaced (kernel/kds/undo.c)
-- and B-tree nodes (kernel/kds/btree.c). The superblock counts the page ids (include/linux/
-- kds_meta.h, kernel/kds/meta.c), and the page allocator (kernel/kds/page_alloc.c) keeps a ring of
-- frames that are ready for use. An update reads the old row from its heap page, saves it as a row
-- of an undo page and then changes the heap page; the allocator draws ids from the superblock and
-- frames from the buffer pool (kernel/kds/page_mgr.c); the B-tree draws single ids and loads its
-- nodes through the pool. SQL texts are parsed by kernel/kds/parser.c, which finds the types of
-- columns in the registry of kernel/kds/types.c. The write-ahead log (kernel/kds/wal.c) takes
-- records into a ring of bytes. The background work is done by procs that kernel/kds/proc.c runs.
--
-- The files:
--   Common       numbers, lists and errors that the parts share; Common.Bytes is the memory of a
--                page, Common.Fields packed little-endian structs
--   Page         include/linux/kds.h, include/linux/kds_page.h and kernel/kds/page.c: a frame is a
--                page id, the header in memory and the bytes of the buffer; Page.Write writes frames
--                to a disk
--   Heap         kernel/kds/heap.c and include/linux/kds_heap.h, every operation: slots grow from
--                the front of the page and tuples from its end. Heap.Layout has the structs at
--                their offsets, Heap.Inv the invariant and the row that a slot stands for
--   Undo         kernel/kds/undo.c and include/linux/kds_undo.h: undo entries, heap_update_tuple
--   Meta         the page-id counter and the allocation range of the superblock; Meta.Boot has the
--                whole page of the superblock, its load, first boot, fsync and shutdown
--   PageAlloc    kernel/kds/page_alloc.c over an interface for the buffer pool (`Pool`)
--   Btree        kernel/kds/btree.c and kds_index_search of kernel/kds/relation.c. Btree.Node and
--                Btree.Rebalance work on the words of nodes, Btree.Tree descends, inserts and
--                splits over an interface for the buffer pool (`Pages`)
--   BufPool      kernel/kds/page_mgr.c: the table is a partial function from page ids to frames,
--                the device a function from sectors to pages. BufPool.Inv has the invariant,
--                BufPool.Supply fills the interface of PageAlloc
--   Types        kernel/kds/types.c: integers, booleans, varchar, hexadecimal floats, the registry
--   Wal          kernel/kds/wal.c and include/linux/kds_wal.h: the buffer of the log and appending
--                to it; Wal.Ring is the ring as a sequence of bytes. Wal.Pages is the flush to the
--                pages of the log, Wal.Chain these as one text, Wal.Saved what of
--                it is on the disk, Wal.Walk the recovery
--   Sched        kernel/kds/proc.c and include/linux/kds_proc.h: procs by address, a queue for each
--                CPU. Sched.Queues has the invariant, Sched.Threads the calls as steps of threads
--   Parser       kernel/kds/parser.c and include/linux/kds_parser.h: Parser.Tokens is the lexer,
--                Parser.Ast the statements and the monad of the rules, Parser.Print a client's text
--
-- How the code is modelled. A function of the source is a definition of the same name; where one
-- locks a frame, the body under the lock has a name of its own (`insert_tuple_ex` for
-- `heap_insert_tuple_ex`). A frame that can be NULL is an Option. An operation on one page holds
-- the lock of the page from its first read to its last write, so it is one step; what is made of
-- several such steps (an update, a batch, a tree operation) runs undisturbed. A function that
-- returns a negative errno returns `err`, and the changed frame beside it. Numbers are natural
-- numbers and every wrap of a u16, u32 or u64 is written out. What kmalloc, the clock and
-- the block device return is an argument. The CRC function is a parameter.
--
-- Bounds. Loops over a ring or a node run as often as there are places or keys. The binary search
-- has as much fuel as the node has keys, each round of it leaving out one at least. A descent of a
-- tree has BTREE_MAX_DEPTH levels, as in the source. The list rules of the parser take as many items
-- as the arrays of a statement have places, which is the bound that the source tests. A flush of the
-- log has two rounds for each byte and two more.
--
-- Not modelled: output pointers that are NULL, the block device
-- (kernel/kds/blkdev.c), and interleavings inside one operation,
-- but for what other threads do to the buffer pool while a page is read or written; the frames of
-- the pool as `Pages` of the B-tree; rebalancing after a delete from a tree
-- (`btree_handle_underflow`, `btree_delete`), though the moves of words that it is made of are;
-- the decimals of kernel/kds/types.c; the texts of error messages; the checkpointer's
-- proc; the catalog, the executors and the shell.
pub mod Common
pub mod Page
pub mod Heap
pub mod Undo
pub mod Meta
pub mod PageAlloc
pub mod Btree
pub mod BufPool
pub mod Types
pub mod Parser
pub mod Wal
pub mod Sched
