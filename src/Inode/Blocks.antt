-- ===== src/Inode/Blocks.antt =====
-- The blocks of a file in uzi-nes-port/fs/filesys.c: `bmap`, `freeblk`, `f_trunc` and `i_deref`.
pub mod Reading
use uzi_build.Prelude.{
  ℕ, zero, suc, ◌+◌, ◌-◌, ◌*◌, ◌/◌, ◌%◌, not, ◌&&◌, ◌||◌, ltb, Option, none, some, ◌==◌,
  if◌then◌else◌, get_or, set, replicate,
}
use uzi_build.Kernel.{Kernel, M, pure, stop, modify, entry, ◌>>=◌, ◌>>◌, inode_freed}
use uzi_build.Kernel.Bytes.{word_at, put_word}
use uzi_build.Format.{naddr, cinode_size}
use uzi_build.Buffer.{bread, brelse, bawrite, buf_at, put_buf}
use uzi_build.FreeList.{blk_alloc, blk_free, i_free}
use uzi_build.Process.{wakeup}
use uzi_build.Inode.Table.{f_pipe, f_bdev, inode_at, put_inode, magic, getmode, wr_inode}

abbrev pub nullblk : ℕ
nullblk = 65535

-- A loop that counts down from `n - 1`.
pub downwards : ℕ → (ℕ → M (Unit {0})) → M (Unit {0})
downwards zero f = pure tt
downwards (suc n) f = f n >> downwards n f

-- The buffer of an indirect block stays in use while the blocks it names are freed.
pub freeblk : ℕ → ℕ → ℕ → M (Unit {0})
freeblk dev blk zero = if blk == 0 then pure tt else blk_free dev blk
freeblk dev blk (suc level) = if blk == 0 then pure tt else do
  r ← bread dev blk 0
  i ← entry r
  downwards 256 (λ j. buf_at i >>= (λ b. freeblk dev (word_at b.bf_data j) level))
  brelse i
  blk_free dev blk

pub f_trunc : ℕ → M (Unit {0})
f_trunc i = do
  c ← inode_at i
  freeblk c.c_dev (get_or c.c_node.i_addr 19 0) 2
  freeblk c.c_dev (get_or c.c_node.i_addr 18 0) 1
  downwards 18 (λ j. freeblk c.c_dev (get_or c.c_node.i_addr j 0) 0)
  modify (
      put_inode i (record c {
        c_dirty = 1;
        c_node = record (c.c_node) {
          i_addr = replicate naddr 0;
          i_size = record { o_blkno = 0; o_offset = 0 };
        };
      }))

-- The address of an inode table entry, on which `wakeup` is called.
abbrev pub inode_address : Kernel → ℕ → ℕ
inode_address k i = k.i_tab_at + cinode_size * i

-- The write-back at the end of `i_deref`.
unfoldable pub retire : ℕ → M (Unit {0})
retire i = do
  c ← inode_at i
  if not (c.c_refs == 0) || c.c_dirty == 0 then pure tt else do
    if c.c_node.i_nlink == 0
        then (do
          modify (put_inode i (record c { c_node = record (c.c_node) { i_mode = 0 } }))
          i_free c.c_dev c.c_num)
        else pure tt
    wr_inode i

unfoldable pub i_deref : ℕ → M (Unit {0})
i_deref i = do
  magic i
  c ← inode_at i
  if c.c_refs == 0 then stop inode_freed else do
    modify (λ k.
        if getmode c == f_pipe then record k { ptab = wakeup (inode_address k i) k.ptab } else k)
    modify (put_inode i (record c { c_refs = c.c_refs - 1 }))
    if c.c_refs - 1 == 0 && c.c_node.i_nlink == 0 then f_trunc i else pure tt
    retire i

-- `ip->c_node.i_addr[n] = nb; ip->c_dirty = 1;`
set_addr : ℕ → ℕ → ℕ → M (Unit {0})
set_addr i n nb = do
  c ← inode_at i
  modify (
      put_inode i (record c {
        c_dirty = 1;
        c_node = record (c.c_node) { i_addr = set c.c_node.i_addr n nb };
      }))

-- The address in slot `n` of the inode, made if it is 0 and the caller may write; `none` where `bmap`
-- answers NULLBLK.
slot_block : ℕ → ℕ → ℕ → M (Option ℕ)
slot_block i n rwflg = do
  c ← inode_at i
  let nb = get_or c.c_node.i_addr n 0
  if not (nb == 0) then pure (some nb) else if not (rwflg == 0) then pure none else do
    new ← blk_alloc c.c_dev
    if new == 0 then pure none else do set_addr i n new; pure (some new)

-- The address at index `n` of indirect block `nb`, made likewise.
entry_block : ℕ → ℕ → ℕ → ℕ → M (Option ℕ)
entry_block dev nb n rwflg = do
  r ← bread dev nb 0
  i ← entry r
  b ← buf_at i
  let next = word_at b.bf_data n
  if not (next == 0)
      then brelse i >> pure (some next)
      else if not (rwflg == 0)
      then brelse i >> pure none
      else do
        new ← blk_alloc dev
        if new == 0 then brelse i >> pure none else do
          b' ← buf_at i
          modify (put_buf i (record b' { bf_data = put_word b'.bf_data n new }))
          bawrite i
          pure (some new)

-- `return (NULLBLK)`, or go on with the address.
abbrev or_null : Option ℕ → (ℕ → M (Option ℕ)) → M (Option ℕ)
or_null none f = pure none
or_null (some nb) f = f nb

-- `bn` without the direct blocks: one level of indirection below 256, and two above.
indirect_block : ℕ → ℕ → ℕ → ℕ → M (Option ℕ)
indirect_block i dev bn rwflg =
    if ltb bn 256
    then (do nb ← slot_block i 18 rwflg; or_null nb (λ first. entry_block dev first bn rwflg))
    else (do
      nb ← slot_block i 19 rwflg
      or_null nb (λ first. do
        mid ← entry_block dev first ((bn - 256) / 256 % 256) rwflg
        or_null mid (λ second. entry_block dev second ((bn - 256) % 256) rwflg)))

abbrev pub block_or_null : Option ℕ → ℕ
block_or_null none = nullblk
block_or_null (some nb) = nb

pub bmap : ℕ → ℕ → ℕ → M ℕ
bmap i bn rwflg = do
  c ← inode_at i
  if getmode c == f_bdev then pure bn else do
    nb ← (if ltb bn 18 then slot_block i bn rwflg else indirect_block i c.c_dev (bn - 18) rwflg)
    pure (block_or_null nb)
