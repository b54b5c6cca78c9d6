-- ===== src/Tests/Blocks.antt =====
-- The free list and the inodes of uzi-nes-port/fs/filesys.c, and uzi-nes-utils/fs/mkfs.c, on small disks.
use uzi_build.Prelude.{
  ◌==◌, if◌then◌else◌, ◌++◌, ℕ, zero, suc, ◌≡◌, refl, [], ◌∷◌, arith, replicate,
}
use uzi_build.Kernel.{Cinode, ◌>>◌, Kernel, Filesys, Dinode, ok, set_error}
use uzi_build.Kernel.Returns.{Returns}
use uzi_build.Format.{dinode_at, put_dinode, words_of_dinode}
use uzi_build.Format.Words.{AllWords}
use uzi_build.Format.RoundTrip.{IsDinode, dinode_round_trip}
use uzi_build.FreeList.{enospc, put_fs, blk_alloc, blk_free}
use uzi_build.FreeList.Chain.{last}
use uzi_build.FreeList.Super.{Reached, Quiet, HasFree}
use uzi_build.FreeList.Claim.{Zeroed}
use uzi_build.FreeList.Alloc.{blk_alloc-takes, blk_alloc-none}
use uzi_build.FreeList.Free.{Freed, blk_free-gives}
use uzi_build.FreeList.Reuse.{blk_free-blk_alloc}
use uzi_build.Buffer.View.{view}
use uzi_build.Buffer.Use.{Undisturbed}
use uzi_build.Inode.Table.{f_bdev, getmode}
use uzi_build.Inode.Blocks.{block_or_null, bmap}
use uzi_build.Inode.Blocks.Reading.{mapped, bmap_reads}
use uzi_build.Tests.Sample.{good, super_block, noon, good-Quiet, good-HasFree}

-- Block 7 is allocated, and the list in it moves into the superblock.
blk_alloc-takes_example : Returns (blk_alloc 0 good) (λ r k'.
    (r ≡ 7)
    × HasFree k' 0 (9 ∷ [])
    × Zeroed good 0 7 k'
    × Quiet k' 0
    × ((f : Filesys) × Reached good 0 f k'))
blk_alloc-takes_example = blk_alloc-takes good 0 7 (9 ∷ []) good-HasFree good-Quiet

blk_free-gives_example : Returns (blk_free 0 8 good) (λ r k'. Freed good 0 8 (7 ∷ 9 ∷ []) k')
blk_free-gives_example =
    blk_free-gives good 0 8 (7 ∷ 9 ∷ []) good-HasFree good-Quiet (λ e. absurd (omega arith))
      (omega arith) (omega arith) (λ e. absurd (omega arith), (λ e. absurd (omega arith), tt))
      (omega arith)

blk_free-blk_alloc_example :
    Returns
      ((blk_free 0 8 >> blk_alloc 0) good)
      (λ r k'. (r ≡ 8) × HasFree k' 0 (7 ∷ 9 ∷ []) × Quiet k' 0)
blk_free-blk_alloc_example =
    blk_free-blk_alloc good 0 8 (7 ∷ 9 ∷ []) good-HasFree good-Quiet (λ e. absurd (omega arith))
      (omega arith) (omega arith) (λ e. absurd (omega arith), (λ e. absurd (omega arith), tt))
      (omega arith)

-- The same file system with no free block.
abbrev full : Kernel
full = record good { fs_tab = record super_block { s_free = replicate 50 0; s_tfree = 0 } ∷ [] }

abbrev full-HasFree : HasFree full 0 []
full-HasFree = record {
  fs = record super_block { s_free = replicate 50 0; s_tfree = 0 };
  at = refl;
  mounted = refl;
  within = tt;
  size = omega arith;
  distinct = tt;
  count = refl;
  room = refl;
  few = omega arith;
  chain = last refl;
}

blk_alloc-none_example :
    blk_alloc 0 full
    ≡ ok 0 (
        set_error enospc
          (put_fs 0 (record super_block { s_free = replicate 50 0; s_tfree = 0; s_fmod = 1 }) full))
blk_alloc-none_example = blk_alloc-none full 0 full-HasFree (omega arith)

abbrev some_inode : Dinode
some_inode = record {
  i_mode = 0x81ff;
  i_nlink = 1;
  i_uid = 2;
  i_gid = 3;
  i_size = record { o_blkno = 1; o_offset = 17 };
  i_atime = noon;
  i_mtime = noon;
  i_ctime = noon;
  i_addr = 300 ∷ replicate 19 0;
}

-- A regular file with an indirect block.
abbrev file : Cinode
file = record {
  c_magic = 24721;
  c_dev = 0;
  c_num = 10;
  c_node = record {
    i_mode = 0x81ff;
    i_nlink = 1;
    i_uid = 2;
    i_gid = 3;
    i_size = record { o_blkno = 21; o_offset = 0 };
    i_atime = noon;
    i_mtime = noon;
    i_ctime = noon;
    i_addr = replicate 18 0 ++ (7 ∷ 0 ∷ []);
  };
  c_refs = 1;
  c_dirty = 0;
}

abbrev opened : Kernel
opened = record good { i_tab = file ∷ [] }

opened-Quiet : Quiet opened 0
opened-Quiet n =
    let r = good-Quiet n in
    record {
      coherent = r.coherent;
      no_fault = r.no_fault;
      device = r.device;
      spare = r.spare;
      spare_buf = r.spare_buf;
      spare_at = r.spare_at;
      spare_idle = r.spare_idle;
      released = r.released;
    }

-- Block 20 of the file is named in word 2 of block 7.
bmap_reads_example : Returns (bmap 0 20 1 opened) (λ r k'.
    (r ≡ (
      if getmode file == f_bdev
      then 20
      else block_or_null (mapped (view opened 0) (replicate 18 0 ++ (7 ∷ 0 ∷ [])) 20)))
    × Undisturbed opened k')
bmap_reads_example = bmap_reads opened 0 20 file refl opened-Quiet

small_words : (n : ℕ) → AllWords (replicate n 0)
small_words zero = tt
small_words (suc n) = (omega arith, small_words n)

some_inode-IsDinode : IsDinode some_inode
unfolding words_of_dinode
some_inode-IsDinode = record {
  addresses = refl;
  fits = (
    omega arith,
    (
      omega arith,
      (
        omega arith,
        (
          omega arith,
          (
            omega arith,
            (
              omega arith,
              (
                omega arith,
                (
                  omega arith,
                  (
                    omega arith,
                    (omega arith, (omega arith, (omega arith, (omega arith, small_words 19)))),
                  ),
                ),
              ),
            ),
          ),
        ),
      ),
    ),
  );
}

dinode_round_trip_example :
    (dinode_at (put_dinode (replicate 512 7) 10 some_inode) 10 ≡ some_inode)
    × (dinode_at (put_dinode (replicate 512 7) 10 some_inode) 11 ≡ dinode_at (replicate 512 7) 11)
dinode_round_trip_example =
    dinode_round_trip (replicate 512 7) 10 11 some_inode refl some_inode-IsDinode
      (λ e. absurd (omega arith))
