-- ===== src/Inode/Open.antt =====
-- Inodes found and loaded: `i_alloc`, `i_open` and `srch_mt` of uzi-nes-port/fs/filesys.c, and `_sync` of
-- kernel/scall1.c, which `i_alloc` calls.
use uzi_build.Prelude.{
  ℕ, zero, suc, ◌+◌, ◌-◌, ◌*◌, ◌/◌, ◌%◌, Bool, true, false, not, ◌&&◌, ◌||◌, ltb, leb, List, [],
  ◌∷◌, Option, none, some, ◌==◌, if◌then◌else◌, get_elem?, get_or, set, take, drop, add8, sub16,
  bit_and,
}
use uzi_build.Kernel.{
  Cinode, Filesys, M, pure, stop, modify, gets, set_error, ◌>>=◌, ◌>>◌, i_open_bad_dev,
}
use uzi_build.Kernel.Bytes.{word_at}
use uzi_build.Format.{dinode_at, nfree_max, table_bytes}
use uzi_build.Buffer.{ndevs, block_size, read_block, rewrite_block, bufsync}
use uzi_build.FreeList.{smounted, enospc, fs_at, put_fs, getdev, baddev}
use uzi_build.Inode.Table.{cmagic, itabsize, f_mask, inode_at, put_inode, wr_inode}
use uzi_build.Inode.Blocks.{i_deref}

abbrev pub enfile : ℕ
enfile = 23

abbrev pub rootinode : ℕ
rootinode = 1

-- The two loops of `_sync` from entry `i` on, over `n` entries.
sync_inodes : ℕ → ℕ → M (Unit {0})
sync_inodes i zero = pure tt
sync_inodes i (suc n) = do
  c ← inode_at i
  if c.c_refs == 0 || c.c_dirty == 0 then pure tt else wr_inode i
  sync_inodes (i + 1) n

sync_supers : ℕ → ℕ → M (Unit {0})
sync_supers j zero = pure tt
sync_supers j (suc n) = do
  f ← fs_at j
  if not (f.s_mounted == smounted) || f.s_fmod == 0 then pure tt else do
    modify (put_fs j (record f { s_fmod = 0 }))
    bytes ← gets (λ k. take block_size (table_bytes k.i_tab_at (drop j k.fs_tab) k.beyond))
    rewrite_block j 1 1 2 (λ _. bytes)
  sync_supers (j + 1) n

pub sync : M ℕ
sync = do sync_inodes 0 itabsize; sync_supers 0 ndevs; bufsync; pure 0

-- The free inodes among the `n` from number `j` of a block on: the list they go to, and its length.
note_free : List ℕ → ℕ → ℕ → ℕ → List ℕ × ℕ → List ℕ × ℕ
note_free bytes blk j zero acc = acc
note_free bytes blk j (suc n) (list, k) = note_free bytes blk (j + 1) n (
    if not (k == nfree_max) && word_at bytes (32 * j) == 0 && word_at bytes (32 * j + 1) == 0
    then (set list k (8 * (blk - 2) + j), k + 1)
    else (list, k))

-- `n` inode blocks from `blk` on, until the list is full.
scan_inodes : ℕ → ℕ → ℕ → List ℕ × ℕ → M (List ℕ × ℕ)
scan_inodes dev blk zero acc = pure acc
scan_inodes dev blk (suc n) acc = do
  bytes ← read_block dev blk
  let acc' = note_free bytes blk 0 8 acc
  if acc'.1 == nfree_max then pure acc' else scan_inodes dev (blk + 1) n acc'

-- The label `corrupt` of `i_alloc`.
corrupt : ℕ → M ℕ
corrupt dev = do
  f ← fs_at dev
  modify (put_fs dev (record f { s_mounted = 1 }))
  modify (set_error enospc)
  pure 0

-- `s_ninode` is not 0.
take_inode : ℕ → M ℕ
take_inode dev = do
  f ← fs_at dev
  if f.s_tinode == 0 then corrupt dev else do
    let ino = get_or f.s_inode (f.s_ninode - 1) 0
    let f' = record f { s_ninode = f.s_ninode - 1 }
    modify (put_fs dev f')
    if ltb ino 2 || leb (sub16 f.s_isize 2 * 8 % 65536) ino
        then corrupt dev
        else do modify (put_fs dev (record f' { s_tinode = f.s_tinode - 1 })); pure ino

pub i_alloc : ℕ → M ℕ
i_alloc devno = do
  getdev devno
  f ← fs_at devno
  if baddev f then corrupt devno else if not (f.s_ninode == 0) then take_inode devno else do
    sync
    g ← fs_at devno
    (list, n) ← scan_inodes devno 2 (g.s_isize - 2) (g.s_inode, 0)
    if n == 0
        then (if g.s_tinode == 0 then modify (set_error enospc) >> pure 0 else corrupt devno)
        else do modify (put_fs devno (record g { s_inode = list; s_ninode = n })); take_inode devno

-- The search of the inode table for `n` steps from entry `j`: `nexti`, the entry for the inode if one
-- is free or holds it, and whether one holds it. The table has `itabsize` entries.
pub find_slot : List Cinode → ℕ → ℕ → ℕ → ℕ → Option ℕ → ℕ → ℕ × Option ℕ × Bool
find_slot tab dev ino zero j free nexti = (nexti, free, false)
find_slot tab dev ino (suc n) j free nexti =
    let j' = if leb itabsize (j + 1) then 0 else j + 1 in
    elim (get_elem? tab j') [
      | none ↦ (j, free, false)
      | some c ↦
          let free' = if c.c_refs == 0 then some j' else free in
          if c.c_dev == dev && c.c_num == ino
          then (j, some j', true)
          else find_slot tab dev ino n j' free' j
    ]

-- From the label `found` on.
reference : Bool → ℕ → M (Option ℕ)
reference new i = do
  c ← inode_at i
  let linked = not (c.c_node.i_nlink == 0)
  let typed = not (bit_and c.c_node.i_mode f_mask == 0)
  if (if new then linked || typed else not (linked && typed))
      then pure none
      else do modify (put_inode i (record c { c_refs = add8 c.c_refs 1 })); pure (some i)

-- The inode comes from its block into entry `i`.
load : ℕ → ℕ → ℕ → M (Unit {0})
load dev ino i = do
  bytes ← read_block dev (ino / 8 + 2)
  c ← inode_at i
  modify (
      put_inode i
        (record c { c_node = dinode_at bytes ino; c_dev = dev; c_num = ino; c_magic = cmagic }))

open_number : Bool → ℕ → ℕ → M (Option ℕ)
open_number new dev ino = do
  f ← fs_at dev
  if ltb ino rootinode || leb (sub16 f.s_isize 2 * 8 % 65536) ino then pure none else do
    (nexti, slot, found) ← gets (λ k. find_slot k.i_tab dev ino itabsize k.nexti none k.nexti)
    modify (λ k. record k { nexti = nexti })
    elim slot [
      | none ↦ modify (set_error enfile) >> pure none
      | some i ↦ (if found then pure tt else load dev ino i) >> reference new i
    ]

pub i_open : ℕ → ℕ → M (Option ℕ)
i_open dev ino =
    if leb ndevs dev
    then stop i_open_bad_dev
    else if not (ino == 0)
    then open_number false dev ino
    else do
      new ← i_alloc dev
      if new == 0 then modify (set_error enospc) >> pure none else open_number true dev new

-- Whether the entry is the mount point.
mounted_at : ℕ → Filesys → Bool
mounted_at i f = f.s_mounted == smounted && elim f.s_mntpt [ none ↦ false | some m ↦ m == i ]

-- The loop of `srch_mt` over the mount table from device `j` on.
search_mounts : ℕ → ℕ → List Filesys → M (Option ℕ)
search_mounts i j [] = pure (some i)
search_mounts i j (f ∷ fs) =
    if mounted_at i f then i_deref i >> i_open j rootinode else search_mounts i (j + 1) fs

pub srch_mt : ℕ → M (Option ℕ)
srch_mt i k = search_mounts i 0 k.fs_tab k
