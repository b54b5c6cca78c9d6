-- ===== src/Files.antt =====
-- The open file table and the descriptors of uzi-nes-port: `oft_alloc`, `oft_deref`, `uf_alloc` and
-- `getinode` of fs/filesys.c; `doclose`, `rwsetup`, `min`, `psize`, `addoff`, `updoff`, `_seek` and `_dup`
-- of kernel/scall1.c; `_dup2` and `_umask` of kernel/scall1b.c; `_setuid` and `_setgid` of
-- kernel/scall2.c.
pub mod Offset
pub mod Table
pub mod Calls
