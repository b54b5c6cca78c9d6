-- ===== src/FreeList.antt =====
-- The superblocks of uzi-nes-port/fs/filesys.c: `getdev`, `baddev`, `validblk`, `blk_alloc`, `blk_free`,
-- `i_free` and `fmount`. A superblock is its index in the mount table, which is its device.
-- A device number is a 16-bit pattern: a negative one is above `ndevs`.
pub mod Chain
pub mod Super
pub mod Claim
pub mod Push
pub mod Alloc
pub mod Free
pub mod Spill
pub mod Reuse
use uzi_build.Prelude.{
  ℕ, zero, suc, ◌+◌, ◌-◌, ◌*◌, ◌%◌, Bool, true, false, not, ◌&&◌, ◌||◌, List, Option, none, some,
  add16, sub16, minus_one, ltb, leb, ◌==◌, if◌then◌else◌, get_elem?, get_or, set, take, drop,
  replicate,
}
use uzi_build.Kernel.{
  Kernel, Filesys, Cinode, Time, M, Run, ok, wild, pure, stop, gets, modify, entry, set_error,
  then_run, ◌>>=◌, ◌>>◌, getdev_bad_dev, validblk_not_mounted, validblk_invalid_blk, i_free_bad_ino,
}
use uzi_build.Kernel.Bytes.{word_at, words}
use uzi_build.Format.{filesys_of_bytes, table_bytes, nfree_max}
use uzi_build.Buffer.{ndevs, block_size, read_block, rewrite_block}

abbrev pub smounted : ℕ
smounted = 12742

abbrev pub enospc : ℕ
enospc = 28

abbrev pub fs_at : ℕ → M Filesys
fs_at dev k = entry (get_elem? k.fs_tab dev) k

abbrev pub put_fs : ℕ → Filesys → Kernel → Kernel
put_fs dev f k = record k { fs_tab = set k.fs_tab dev f }

pub getdev : ℕ → M (Unit {0})
getdev devno = if leb ndevs devno then stop getdev_bad_dev else do
  f ← fs_at devno
  if f.s_mounted == 0
      then stop getdev_bad_dev
      else modify (λ k. put_fs devno (record f { s_time = k.tod; s_fmod = 1 }) k)

abbrev pub baddev : Filesys → Bool
baddev f = not (f.s_mounted == smounted)

pub validblk : ℕ → ℕ → M (Unit {0})
validblk dev num = do
  f ← fs_at dev
  if f.s_mounted == 0
      then stop validblk_not_mounted
      else if ltb num f.s_isize || leb f.s_fsize num
      then stop validblk_invalid_blk
      else pure tt

-- The labels `corrupt` and `corrupt2` of `blk_alloc`.
no_space : M ℕ
no_space = modify (set_error enospc) >> pure 0

corrupt : ℕ → M ℕ
corrupt dev = do f ← fs_at dev; modify (put_fs dev (record f { s_mounted = 1 })); no_space

-- `if (!dev->s_nfree) { … }`: the list in block `newno` becomes the superblock's.
refill : ℕ → ℕ → M (Unit {0})
refill dev newno = do
  bytes ← read_block dev newno
  f ← fs_at dev
  modify (put_fs dev (record f { s_nfree = word_at bytes 0; s_free = words bytes 1 nfree_max }))

-- From `validblk` on.
claim_block : ℕ → ℕ → M ℕ
claim_block dev newno = do
  validblk dev newno
  f ← fs_at dev
  if f.s_tfree == 0 then corrupt dev else do
    modify (put_fs dev (record f { s_tfree = f.s_tfree - 1 }))
    rewrite_block dev newno 2 1 (λ _. replicate block_size 0)
    pure newno

-- The address 0 at the end of the list, once `s_nfree` has been decremented.
no_more : ℕ → Filesys → M ℕ
no_more dev f = if not (f.s_tfree == 0) then corrupt dev else modify (put_fs dev f) >> no_space

-- From `newno = …` on.
pub draw : ℕ → Filesys → M ℕ
draw dev f = do
  let n = f.s_nfree - 1
  let newno = get_or f.s_free n 0
  modify (put_fs dev (record f { s_nfree = n }))
  if newno == 0
      then no_more dev f
      else do if n == 0 then refill dev newno else pure tt; claim_block dev newno

-- `s_nfree` is signed: what is at most 0 or above 50 is 0 or above 50 as a pattern.
pub blk_alloc : ℕ → M ℕ
blk_alloc devno = do
  getdev devno
  f ← fs_at devno
  if baddev f
      then no_space
      else if f.s_nfree == 0 || ltb nfree_max f.s_nfree
      then corrupt devno
      else draw devno f

-- 512 bytes of memory from `dev->s_nfree` on.
abbrev pub free_bytes : ℕ → Kernel → List ℕ
free_bytes dev k = take block_size (drop 6 (table_bytes k.i_tab_at (drop dev k.fs_tab) k.beyond))

-- `if (dev->s_nfree == 50) { … }`: the superblock's list moves into the block.
spill : ℕ → ℕ → M (Unit {0})
spill dev blk = do
  bytes ← gets (free_bytes dev)
  rewrite_block dev blk 1 1 (λ _. bytes)
  f ← fs_at dev
  modify (put_fs dev (record f { s_nfree = 0 }))

-- `++dev->s_tfree` and the assignment after it. An index outside `s_free` is an access outside a table.
list_block : ℕ → ℕ → M (Unit {0})
list_block dev blk = do
  f ← fs_at dev
  if leb nfree_max f.s_nfree
      then (λ _. wild)
      else modify (
          put_fs dev (record f {
            s_tfree = add16 f.s_tfree 1;
            s_free = set f.s_free f.s_nfree blk;
            s_nfree = f.s_nfree + 1;
          }))

pub blk_free : ℕ → ℕ → M (Unit {0})
blk_free devno blk = if blk == 0 then pure tt else do
  getdev devno
  f ← fs_at devno
  if baddev f then pure tt else do
    validblk devno blk
    if f.s_nfree == nfree_max then spill devno blk else pure tt
    list_block devno blk

pub i_free : ℕ → ℕ → M (Unit {0})
i_free devno ino = do
  getdev devno
  f ← fs_at devno
  if baddev f
      then pure tt
      else if ltb ino 2 || leb ((sub16 f.s_isize 2 * 8) % 65536) ino
      then stop i_free_bad_ino
      else do
        let f' = record f { s_tinode = add16 f.s_tinode 1 }
        if leb 32768 f.s_ninode
            then (λ _. wild)
            else modify (
                put_fs devno (
                  if ltb f.s_ninode nfree_max
                  then record f' {
                    s_inode = set f.s_inode f.s_ninode ino;
                    s_ninode = f.s_ninode + 1;
                  }
                  else f'))
