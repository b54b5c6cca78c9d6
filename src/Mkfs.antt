-- ===== src/Mkfs.antt =====
-- A new file system, as `mkfs` of uzi-nes-utils/fs/mkfs.c makes it. A block that is not written is zero.
pub mod Chain
pub mod Volume
use uzi_build.Prelude.{
  ℕ, zero, suc, ◌+◌, ◌-◌, ◌*◌, ◌%◌, List, [], ◌∷◌, ◌++◌, Option, none, ◌==◌, if◌then◌else◌, set,
  take, drop, replicate, add16, sub16,
}
use uzi_build.Kernel.{Filesys, Dinode, Off, Time}
use uzi_build.Kernel.Bytes.{bytes_of_words}
use uzi_build.Format.{naddr, nfree_max, table_bytes, put_dinode}
use uzi_build.Buffer.{block_size}
use uzi_build.FreeList.{smounted}

-- The superblock in memory, and the blocks written.
pub record Image : Type 0 where
  pub super : Filesys
  pub blocks : ℕ → List ℕ

abbrev pub dwrite : ℕ → List ℕ → (ℕ → List ℕ) → ℕ → List ℕ
dwrite blk bytes blocks n = if n == blk then bytes else blocks n

-- One round of the loop that builds the free list. `behind` is what follows the superblock in `sb_buf`.
pub free_block : List ℕ → ℕ → Image → Image
free_block behind j m =
    let f = m.super in
    let full = f.s_nfree == nfree_max in
    let n = if full then 0 else f.s_nfree in
    record {
      super = record f { s_tfree = add16 f.s_tfree 1; s_free = set f.s_free n j; s_nfree = n + 1 };
      blocks =
          if full
          then dwrite j (take block_size (drop 6 (table_bytes 0 (f ∷ []) behind))) m.blocks
          else m.blocks;
    }

-- The `n` blocks behind block `isize`, from the last.
pub free_blocks : List ℕ → ℕ → ℕ → Image → Image
free_blocks behind isize zero m = m
free_blocks behind isize (suc n) m =
    free_blocks behind isize n (free_block behind (isize + suc n) m)

abbrev pub epoch : Time
epoch = record { t_time = 0; t_date = 0 }

pub new_super : ℕ → ℕ → Filesys
new_super fsize isize = record {
  s_mounted = smounted;
  s_isize = isize;
  s_fsize = fsize;
  s_nfree = 1;
  s_free = replicate nfree_max 0;
  s_ninode = 0;
  s_inode = replicate nfree_max 0;
  s_fmod = 0;
  s_time = epoch;
  s_tfree = 0;
  s_tinode = sub16 (8 * (isize - 2) % 65536) 2;
  s_mntpt = none;
}

abbrev zero_inode : Dinode
zero_inode = record {
  i_mode = 0;
  i_nlink = 0;
  i_uid = 0;
  i_gid = 0;
  i_size = record { o_blkno = 0; o_offset = 0 };
  i_atime = epoch;
  i_mtime = epoch;
  i_ctime = epoch;
  i_addr = replicate naddr 0;
}

pub root_inode : ℕ → Dinode
root_inode isize = record zero_inode {
  i_mode = 0x41ff;
  i_nlink = 3;
  i_size = record { o_blkno = 0; o_offset = 32 };
  i_addr = set (replicate naddr 0) 0 isize;
}

-- Inode 0, which no file gets.
pub reserved_inode : Dinode
reserved_inode = record zero_inode { i_mode = 0xffff; i_nlink = 1 }

-- `.` and `..`, both inode 1.
pub root_dir : List ℕ
root_dir =
    (1 ∷ 0 ∷ 0x2e ∷ replicate 13 0) ++ ((1 ∷ 0 ∷ 0x2e ∷ 0x2e ∷ replicate 12 0) ++ replicate 480 0)

pub mkfs : List ℕ → ℕ → ℕ → Image
mkfs behind fsize isize =
    let m =
      free_blocks behind isize (fsize - 1 - isize)
        (record { super = new_super fsize isize; blocks = λ n. replicate block_size 0 }) in
    let inodes =
      put_dinode (put_dinode (replicate block_size 0) 1 (root_inode isize)) 0 reserved_inode in
    record m {
      blocks =
          dwrite 1 (take block_size (table_bytes 0 (m.super ∷ []) behind))
            (dwrite isize root_dir (dwrite 2 inodes m.blocks));
    }
