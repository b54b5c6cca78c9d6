-- ===== src/Inode.antt =====
-- The inode table of uzi-nes-port/fs/filesys.c: `magic`, `isdevice`, `devnum`, `getmode`, `super`,
-- `getperm`, `setftime`, `wr_inode`, `freeblk`, `f_trunc`, `i_ref`, `i_deref`, `bmap`, `i_alloc`,
-- `i_open` and `srch_mt`, with `_sync` of kernel/scall1.c. A pointer to
-- an entry of the table is its index in `i_tab`.
pub mod Table
pub mod Blocks
pub mod Open
