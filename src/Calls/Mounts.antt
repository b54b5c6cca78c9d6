-- ===== src/Calls/Mounts.antt =====
-- `fmount` of uzi-nes-port/fs/filesys.c, and `_mount` and `_umount` of kernel/scall1b.c.
pub mod Mounting
use uzi_build.Prelude.{
  ℕ, Bool, true, false, not, ◌&&◌, ◌||◌, List, [], ◌∷◌, Option, none, some, ◌==◌, ltb, leb,
  if◌then◌else◌, signed_lt, add8, minus_one,
}
use uzi_build.Kernel.{
  Cinode, Filesys, M, pure, stop, gets, modify, entry, ◌>>=◌, ◌>>◌, cant_open_filesystem,
}
use uzi_build.Format.{filesys_of_bytes}
use uzi_build.Buffer.{ndevs, read_block}
use uzi_build.FreeList.{smounted, fs_at, put_fs}
use uzi_build.Inode.Table.{f_dir, f_bdev, inode_at, put_inode, devnum, getmode, super}
use uzi_build.Inode.Blocks.{i_deref}
use uzi_build.Inode.Open.{sync, rootinode}
use uzi_build.Path.{n_open}
use uzi_build.Devices.{Drivers, d_open}
use uzi_build.Calls.Numbers.{eperm, enxio, enotblk, ebusy, enotdir, einval, fails}

-- `if (ino) ++ino->c_refs;`
add_ref : Option ℕ → M (Unit {0})
add_ref none = pure tt
add_ref (some i) = do c ← inode_at i; modify (put_inode i (record c { c_refs = add8 c.c_refs 1 }))

pub fmount : Drivers → ℕ → Option ℕ → M ℕ
fmount dev_tab dev ino = do
  r ← d_open dev_tab dev
  if not (r == 0) then stop cant_open_filesystem else do
    old ← fs_at dev
    bytes ← read_block dev 1
    fp ← gets (λ k. filesys_of_bytes k.i_tab_at bytes)
    modify (put_fs dev fp)
    if not (fp.s_mounted == smounted) || leb fp.s_fsize fp.s_isize
        then pure minus_one
        else do modify (put_fs dev (record fp { s_mntpt = ino })); add_ref ino; pure 0

-- Both inodes are given up.
release : ℕ → ℕ → ℕ → M ℕ
release dino sino r = do i_deref dino; i_deref sino; pure r

-- `dev >= NDEVS || d_open(dev)`, where `dev` is an `int`.
unopened : Drivers → ℕ → M Bool
unopened dev_tab dev =
    if signed_lt dev ndevs then (do r ← d_open dev_tab dev; pure (not (r == 0))) else pure true

-- `fs_tab[dev].s_mounted || dino->c_refs != 1 || dino->c_num == ROOTINODE`
pub is_busy : Filesys → Cinode → Bool
is_busy f d = not (f.s_mounted == 0) || not (d.c_refs == 1) || d.c_num == rootinode

-- From the test of the modes on.
mount_on : Drivers → ℕ → ℕ → M ℕ
mount_on dev_tab sino dino = do
  s ← inode_at sino
  d ← inode_at dino
  let dev = devnum s
  if not (getmode s == f_bdev)
      then fails enotblk >> release dino sino minus_one
      else if not (getmode d == f_dir)
      then fails enotdir >> release dino sino minus_one
      else do
        bad ← unopened dev_tab dev
        if bad then fails enxio >> release dino sino minus_one else do
          f ← fs_at dev
          d' ← inode_at dino
          if is_busy f d' then fails ebusy >> release dino sino minus_one else do
            sync
            r ← fmount dev_tab dev (some dino)
            if r == 0 then release dino sino 0 else fails ebusy >> release dino sino minus_one

pub mount : Drivers → List ℕ → List ℕ → M ℕ
mount dev_tab spec dir = do
  u ← gets (λ k. k.udata)
  if not (super u) then fails eperm else do
    (found, unused) ← n_open spec false
    elim found [
      | none ↦ pure minus_one
      | some sino ↦ do
        (there, unused') ← n_open dir false
        elim there [
          | none ↦ i_deref sino >> pure minus_one
          | some dino ↦ mount_on dev_tab sino dino
        ]
    ]

-- Whether an inode of the device is in use.
pub any_open : ℕ → List Cinode → Bool
any_open dev [] = false
any_open dev (c ∷ cs) = (ltb 0 c.c_refs && c.c_dev == dev) || any_open dev cs

-- The labels `nogood` and the end of `_umount`.
leave : ℕ → ℕ → M ℕ
leave sino r = i_deref sino >> pure r

-- `_sync`, and the entry of the mount table given up.
detach : ℕ → M (Unit {0})
detach dev = do
  sync
  f ← fs_at dev
  modify (put_fs dev (record f { s_mounted = 0 }))
  mntpt ← entry f.s_mntpt
  i_deref mntpt

pub unmount : ℕ → ℕ → M ℕ
unmount dev sino = do
  f ← fs_at dev
  if f.s_mounted == 0 then fails einval >> leave sino minus_one else do
    busy ← gets (λ k. any_open dev k.i_tab)
    if busy then fails ebusy >> leave sino minus_one else detach dev >> leave sino 0

pub umount : List ℕ → M ℕ
umount spec = do
  u ← gets (λ k. k.udata)
  if not (super u) then fails eperm else do
    (found, unused) ← n_open spec false
    elim found [
      | none ↦ pure minus_one
      | some sino ↦ do
        s ← inode_at sino
        if not (getmode s == f_bdev)
            then fails enotblk >> leave sino minus_one
            else unmount (devnum s) sino
    ]
