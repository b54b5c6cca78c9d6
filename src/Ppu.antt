-- ===== src/Ppu.antt =====
-- The picture processor of uzi-nes-port as the kernel uses it: the write buffer and the screen of
-- ppu/ppu_databuf.c, and the disk in its memory banks, drivers/devppuwd.c.
pub mod Queue
pub mod Screen
pub mod Disk
