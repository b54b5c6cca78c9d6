-- ===== src/Lib.antt =====
-- A model of the UZI kernel for the NES (uzi-nes-port) and of its mkfs (uzi-nes-utils), with the theorems
-- that make its parts correct.
--
-- The kernel keeps its tables in global variables and works on them one process at a time. At the bottom
-- are the drivers: the disk in the memory banks of the picture processor and the character queues. Above
-- them is the pool of block buffers, through which the file system reads and writes: superblocks with the
-- list of free blocks, the inode table with the blocks of a file, path names, and open files. Beside it
-- stand the process table, signals, and the clock interrupt that drives both.
--
--   Kernel      the tables: records for the structures of include/unix.h, one record for the globals of
--               kernel/kdata.c, and a monad in which a routine returns, panics, sleeps for good, or reaches
--               outside a table
--   Format      inodes and superblocks as bytes
--   Buffer      drivers/devio.c: bread, bfree, freebuf, bufsync and the rest of the pool
--   CharQueue   drivers/devio.c: insq, remq, uninsq, fullq
--   FreeList    fs/filesys.c: getdev, validblk, blk_alloc, blk_free, i_free
--   Inode       fs/filesys.c: the inode table, bmap, f_trunc, i_alloc, i_open; kernel/scall1.c: _sync
--   Path        fs/filesys.c: namecomp, filename, srch_dir, n_open
--   Entry       fs/filesys.c: ch_link, newfile
--   Files       fs/filesys.c, kernel/scall1.c, kernel/scall1b.c, kernel/scall2.c: open files, descriptors,
--               offsets, _seek, _dup, _dup2, _umask, _setuid, _setgid
--   Devices     drivers/devio.c: the device switch
--   Transfer    kernel/scall1.c: readi and writei
--   Calls       kernel/scall1.c, kernel/scall1b.c: Data has _read, _write, _getfsys and _ioctl, Opening has
--               _open, _creat and _pipe, Names has _link, _unlink, _mknod and _chdir, Attributes has _access,
--               _chmod, _chown, _stat and _fstat, Mounts has _mount and _umount
--   Terminal    drivers/devtty.c
--   Process     kernel/process.c, kernel/scall2.c: ptab_alloc, getproc, psleep, wakeup; Waiting has a process
--               that sleeps, Birth has newproc and dofork, Death has doexit and _wait, Account the small calls
--   Signals     kernel/process.c, kernel/scall2.c, kernel/interrupts.c: ssig, chksigs, _signal, _kill,
--               _alarm, clk_int
--   Clock       kernel/time.c
--   Ppu         ppu/ppu_databuf.c, drivers/devppuwd.c; a request is read by the layout that
--               ppu/ppu_databuf.S documents
--   Mkfs        uzi-nes-utils/fs/mkfs.c
--   Prelude     lists as arrays, binary digits, machine words; Tests runs the theorems on small states
--
-- A C pointer into a table is an index of the table, or an option where it may be null. An int is its
-- 16-bit pattern and a char a number below 256, as cc65 has them, with wrap-around written out. The
-- memory of the running process is a field of the state, and the address of a table or a local variable
-- is a field or an argument where the code compares or stores it. A routine that changes globals is a
-- function from the kernel state to a result and a new state; smaller routines take and return just the
-- table they change. The devices are two fields of the state: what each block holds, and which requests
-- a driver answers with -1. The routines of other drivers are an interface that the device switch takes.
-- A process that sleeps lets others run: what they make of the tables is a list of changes, one for each
-- time it sleeps, and at its end the process sleeps on. A process that exits leaves the processor to the
-- others for good: doexit ends in the state that they find, without a result. A string is the bytes from
-- its address on, those behind its end included.
--
-- Loops over tables are recursion on the table. The search for a process number is on fuel, one more try
-- than the table has entries, and the scheduler on one round for each slot, which is enough. The
-- loop of _seek has 128 rounds, enough for any 16-bit offset, and the walk of n_open one round more than
-- the path has characters. The copies of readi and writei have one round more than bytes to move, and the
-- search of ch_link two more than the directory has entries, which is enough. The loops of the
-- terminal have one round more than characters asked for.
--
-- Not modelled: memory images and stacks of processes and the switch between them, which assembly does;
-- _execve, which loads such images; the driver of the keyboard; printing; fsck and the
-- host's file utilities. Messages of `warning` have no effect on the state.
pub mod Prelude
pub mod CharQueue
pub mod Kernel
pub mod Format
pub mod Buffer
pub mod FreeList
pub mod Inode
pub mod Files
pub mod Devices
pub mod Transfer
pub mod Entry
pub mod Calls
pub mod Terminal
pub mod Path
pub mod Ppu
pub mod Mkfs
pub mod Clock
pub mod Tests
pub mod Process
pub mod Signals
