-- ===== src/Calls/Data.antt =====
-- `_read` and `_write` of uzi-nes-port/kernel/scall1.c, and `_ioctl` and `_getfsys` of kernel/scall1b.c.
pub mod Reading
use uzi_build.Prelude.{
  ℕ, Bool, true, false, not, ◌||◌, Option, none, some, ◌==◌, leb, if◌then◌else◌, bit_and, minus_one,
}
use uzi_build.Kernel.{Kernel, M, pure, gets, modify, ◌>>=◌, ◌>>◌}
use uzi_build.Kernel.Bytes.{bytes_of_words}
use uzi_build.Kernel.Memory.{fetch, put_bytes}
use uzi_build.Format.{words_of_filesys}
use uzi_build.Buffer.{ndevs}
use uzi_build.FreeList.{smounted, fs_at}
use uzi_build.Inode.Table.{oth_wr, inode_at, isdevice, devnum, getperm}
use uzi_build.Files.Table.{getinode}
use uzi_build.Files.Calls.{rwsetup, updoff}
use uzi_build.Process.Waiting.{Others}
use uzi_build.Devices.{Drivers, d_ioctl}
use uzi_build.Transfer.{readi, writei}
use uzi_build.Calls.Numbers.{eperm, enxio, enotty, fails}

pub read : Drivers → Others → ℕ → ℕ → ℕ → M ℕ
read dev_tab others d buf nbytes = do
  found ← rwsetup d buf nbytes true
  elim found [
    | none ↦ pure minus_one
    | some ino ↦ do
      bytes ← readi dev_tab others ino
      modify (put_bytes buf bytes)
      updoff d
      gets (λ k. k.udata.u_count)
  ]

pub write : Drivers → Others → ℕ → ℕ → ℕ → M ℕ
write dev_tab others d buf nbytes = do
  found ← rwsetup d buf nbytes false
  elim found [
    | none ↦ pure minus_one
    | some ino ↦ do
      src ← gets (λ k. fetch k.memory buf nbytes)
      writei dev_tab others ino src
      updoff d
      gets (λ k. k.udata.u_count)
  ]

-- A negative device number is a pattern above `ndevs`.
pub getfsys : ℕ → ℕ → M ℕ
getfsys dev buf = if leb ndevs dev then fails enxio else do
  f ← fs_at dev
  if not (f.s_mounted == smounted)
      then fails enxio
      else do modify (λ k. put_bytes buf (bytes_of_words (words_of_filesys k.i_tab_at f)) k); pure 0

pub ioctl : Drivers → ℕ → ℕ → ℕ → M ℕ
ioctl dev_tab fd request at = do
  found ← getinode fd
  elim found [
    | none ↦ pure minus_one
    | some ino ↦ do
      c ← inode_at ino
      u ← gets (λ k. k.udata)
      if not (isdevice c)
          then fails enotty
          else if bit_and (getperm u c) oth_wr == 0
          then fails eperm
          else do r ← d_ioctl dev_tab (devnum c) request at; pure (if r == 0 then 0 else minus_one)
  ]
