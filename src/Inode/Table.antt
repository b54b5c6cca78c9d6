-- ===== src/Inode/Table.antt =====
-- Entries of the inode table of uzi-nes-port/fs/filesys.c: `magic`, `isdevice`, `devnum`, `getmode`,
-- `super`, `getperm`, `setftime`, `wr_inode` and `i_ref`.
use uzi_build.Prelude.{
  ℕ, ◌+◌, ◌*◌, ◌/◌, Bool, not, ◌==◌, if◌then◌else◌, get_elem?, get_or, set, add8, bit_and,
}
use uzi_build.Kernel.{
  Kernel, UData, Cinode, M, pure, stop, modify, gets, entry, ◌>>=◌, ◌>>◌, corrupt_inode,
  too_many_irefs,
}
use uzi_build.Format.{put_dinode}
use uzi_build.Buffer.{rewrite_block}

abbrev pub cmagic : ℕ
cmagic = 24721

abbrev pub itabsize : ℕ
itabsize = 20

abbrev pub f_mask : ℕ
f_mask = 0xf000

abbrev pub f_reg : ℕ
f_reg = 0x8000

abbrev pub f_dir : ℕ
f_dir = 0x4000

abbrev pub f_pipe : ℕ
f_pipe = 0x1000

abbrev pub f_bdev : ℕ
f_bdev = 0x6000

abbrev pub f_cdev : ℕ
f_cdev = 0x2000

abbrev pub oth_ex : ℕ
oth_ex = 1

abbrev pub oth_wr : ℕ
oth_wr = 2

abbrev pub oth_rd : ℕ
oth_rd = 4

abbrev pub inode_at : ℕ → M Cinode
inode_at i k = entry (get_elem? k.i_tab i) k

abbrev pub put_inode : ℕ → Cinode → Kernel → Kernel
put_inode i c k = record k { i_tab = set k.i_tab i c }

unfoldable pub magic : ℕ → M (Unit {0})
magic i = do c ← inode_at i; if c.c_magic == cmagic then pure tt else stop corrupt_inode

pub isdevice : Cinode → Bool
isdevice c = not (bit_and c.c_node.i_mode f_cdev == 0)

pub devnum : Cinode → ℕ
devnum c = get_or c.c_node.i_addr 0 0

unfoldable pub getmode : Cinode → ℕ
getmode c = bit_and c.c_node.i_mode f_mask

unfoldable pub super : UData → Bool
super u = u.u_euid == 0

unfoldable pub getperm : UData → Cinode → ℕ
getperm u c =
    if super u
    then 7
    else if c.c_node.i_uid == u.u_euid
    then bit_and (c.c_node.i_mode / 64) 7
    else if c.c_node.i_gid == u.u_egid
    then bit_and (c.c_node.i_mode / 8) 7
    else bit_and c.c_node.i_mode 7

abbrev pub a_time : ℕ
a_time = 1

abbrev pub m_time : ℕ
m_time = 2

abbrev pub c_time : ℕ
c_time = 4

unfoldable pub setftime : ℕ → ℕ → M (Unit {0})
setftime i flag = do
  c ← inode_at i
  now ← gets (λ k. k.tod)
  let d = c.c_node
  modify (
      put_inode i (record c {
        c_dirty = 1;
        c_node = record d {
          i_atime = if bit_and flag a_time == 0 then d.i_atime else now;
          i_mtime = if bit_and flag m_time == 0 then d.i_mtime else now;
          i_ctime = if bit_and flag c_time == 0 then d.i_ctime else now;
        };
      }))

pub wr_inode : ℕ → M (Unit {0})
wr_inode i = do
  magic i
  c ← inode_at i
  rewrite_block c.c_dev (c.c_num / 8 + 2) 0 2 (λ old. put_dinode old c.c_num c.c_node)
  modify (put_inode i (record c { c_dirty = 0 }))

unfoldable pub i_ref : ℕ → M (Unit {0})
i_ref i = do
  c ← inode_at i
  modify (put_inode i (record c { c_refs = add8 c.c_refs 1 }))
  if add8 c.c_refs 1 == 2 * itabsize then stop too_many_irefs else pure tt
