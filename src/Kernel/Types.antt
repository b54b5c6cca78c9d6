-- ===== src/Kernel/Types.antt =====
-- The structures of uzi-nes-port/include/unix.h. A pointer into a table is an index of it, and a
-- pointer that may be null an option. A `char` is a number below 2 ^ 8, an `int16`, `uint16` or
-- `blkno_t` one below 2 ^ 16; negative values are their two's complement patterns.
use uzi_build.Prelude.{ℕ, Bool, List, Option}
use uzi_build.CharQueue.{SQueue}

-- `time_t` of the kernel.
pub record Time : Type 0 where
  pub t_time : ℕ
  pub t_date : ℕ

-- `off_t` of the kernel: a block number and an offset within the block.
pub record Off : Type 0 where
  pub o_blkno : ℕ
  pub o_offset : ℕ

pub record Blkbuf : Type 0 where
  pub bf_data : List ℕ
  pub bf_dev : ℕ
  pub bf_blk : ℕ
  pub bf_dirty : ℕ
  pub bf_busy : ℕ
  pub bf_time : ℕ

pub record Dinode : Type 0 where
  pub i_mode : ℕ
  pub i_nlink : ℕ
  pub i_uid : ℕ
  pub i_gid : ℕ
  pub i_size : Off
  pub i_atime : Time
  pub i_mtime : Time
  pub i_ctime : Time
  pub i_addr : List ℕ

pub record Cinode : Type 0 where
  pub c_magic : ℕ
  pub c_dev : ℕ
  pub c_num : ℕ
  pub c_node : Dinode
  pub c_refs : ℕ
  pub c_dirty : ℕ

pub record Filesys : Type 0 where
  pub s_mounted : ℕ
  pub s_isize : ℕ
  pub s_fsize : ℕ
  pub s_nfree : ℕ
  pub s_free : List ℕ
  pub s_ninode : ℕ
  pub s_inode : List ℕ
  pub s_fmod : ℕ
  pub s_time : Time
  pub s_tfree : ℕ
  pub s_tinode : ℕ
  pub s_mntpt : Option ℕ

pub record Oft : Type 0 where
  pub o_ptr : Off
  pub o_inode : Option ℕ
  pub o_access : ℕ
  pub o_refs : ℕ

-- `p_wait` is an address: 0 for none. The saved zero page is not modelled.
pub record PTab : Type 0 where
  pub p_status : ℕ
  pub p_pid : ℕ
  pub p_uid : ℕ
  pub p_pptr : Option ℕ
  pub p_swap : ℕ
  pub p_alarm : ℕ
  pub p_exitval : ℕ
  pub p_wait : ℕ
  pub p_priority : ℕ
  pub p_pending : ℕ
  pub p_ignored : ℕ

-- The fields of `struct u_data` that the modelled routines read or write. `u_ptab` is an index of the
-- process table, `u_cwd` of the inode table, and `u_sigvec` holds handler addresses (0 is SIG_DFL,
-- 1 is SIG_IGN).
pub record UData : Type 0 where
  pub u_ptab : ℕ
  pub u_insys : ℕ
  pub u_error : ℕ
  pub u_base : ℕ
  pub u_count : ℕ
  pub u_offset : Off
  pub u_gid : ℕ
  pub u_euid : ℕ
  pub u_egid : ℕ
  pub u_mask : ℕ
  pub u_time : Time
  pub u_files : List ℕ
  pub u_cwd : ℕ
  pub u_break : ℕ
  pub u_sigvec : List ℕ
  pub u_cursig : ℕ
  pub u_utime : Time
  pub u_stime : Time
  pub u_cutime : Time
  pub u_cstime : Time

-- `disk` is what the devices hold, by device and block, and `fault` says for which blocks a device
-- routine answers -1. `beyond` is the memory that follows the mount table; `i_tab_at`, `ptab_at` and
-- `udata_at` are the addresses of the inode table, the process table and `udata`. `memory` is the user's
-- memory, a byte at each address. The fields from `ttyinq` on are of
-- drivers/devtty.c; `console` is what has been put on the screen.
pub record Kernel : Type 0 where
  pub udata : UData
  pub bufpool : List Blkbuf
  pub bufclock : ℕ
  pub disk : ℕ → ℕ → List ℕ
  pub fault : ℕ → ℕ → Bool
  pub i_tab : List Cinode
  pub nexti : ℕ
  pub of_tab : List Oft
  pub fs_tab : List Filesys
  pub beyond : List ℕ
  pub ptab : List PTab
  pub tod : Time
  pub root : ℕ
  pub rootdev : ℕ
  pub i_tab_at : ℕ
  pub ptab_at : ℕ
  pub udata_at : ℕ
  pub memory : ℕ → ℕ
  pub initproc : ℕ
  pub ticks : Time
  pub ttyinq : SQueue
  pub stopflag : ℕ
  pub flshflag : ℕ
  pub console : List ℕ
