-- ===== src/Calls.antt =====
-- The system calls of uzi-nes-port/kernel/scall1.c and kernel/scall1b.c on files and names: what opens and
-- makes files (Opening), names them (Names), reads and changes what an inode says (Attributes), moves data
-- (Data), and mounts file systems (Mounts). A path name is the string that the user's pointer leads to, -1 is
-- 65535, and `errno` values go to `u_error`.
pub mod Opening
pub mod Names
pub mod Attributes
pub mod Data
pub mod Mounts
pub mod Numbers
