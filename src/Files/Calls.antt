-- ===== src/Files/Calls.antt =====
-- System calls of uzi-nes-port on descriptors and identities: `doclose`, `rwsetup`, `updoff`, `_seek` and
-- `_dup` of kernel/scall1.c, `_dup2` and `_umask` of kernel/scall1b.c, `_setuid` and `_setgid` of
-- kernel/scall2.c.
pub mod Setup
use uzi_build.Prelude.{
  ℕ, ◌+◌, Bool, ◌&&◌, ◌||◌, Option, none, some, ◌==◌, leb, if◌then◌else◌, get_elem?, set, add8,
  add16, bit_and, minus_one,
}
use uzi_build.Kernel.{
  Kernel, UData, Off, PTab, M, wild, pure, modify, gets, entry, set_error, ◌>>=◌, ◌>>◌,
}
use uzi_build.Inode.Table.{
  f_pipe, inode_at, isdevice, devnum, getmode, super, setftime, a_time, m_time, c_time,
}
use uzi_build.Buffer.{ndevs}
use uzi_build.Files.Offset.{settle}
use uzi_build.Files.Table.{
  oft_at, put_oft, oft_deref, uf_alloc, uftsize, is_unused, getinode, ebadf,
}

abbrev pub eperm : ℕ
eperm = 1

abbrev pub einval : ℕ
einval = 22

abbrev pub espipe : ℕ
espipe = 29

abbrev pub o_rdonly : ℕ
o_rdonly = 0

abbrev pub o_wronly : ℕ
o_wronly = 1

abbrev pub put_udata : UData → Kernel → Kernel
put_udata u k = record k { udata = u }

abbrev pub file_at : ℕ → M ℕ
file_at d k = entry (get_elem? k.udata.u_files d) k

abbrev pub put_file : ℕ → ℕ → Kernel → Kernel
put_file d f k = put_udata (record (k.udata) { u_files = set k.udata.u_files d f }) k

-- The `close` routines of `dev_tab` do nothing; a device past it is an access outside a table. -1 in a
-- `char` is 255. The number is the result, 0 or -1.
pub doclose : ℕ → M ℕ
doclose uindex = do
  ino ← getinode uindex
  elim ino [
    | none ↦ pure minus_one
    | some i ↦ do
      f ← file_at uindex
      c ← inode_at i
      if isdevice c && leb ndevs (devnum c) then (λ _. wild) else pure tt
      modify (put_file uindex 255)
      oft_deref f
      pure 0
  ]

-- `++of_tab[udata.u_files[oldd]].o_refs` with the descriptor copied.
share : ℕ → ℕ → M (Unit {0})
share oldd newd = do
  f ← file_at oldd
  modify (put_file newd f)
  f' ← file_at oldd
  o ← oft_at f'
  modify (put_oft f' (record o { o_refs = add8 o.o_refs 1 }))

pub dup : ℕ → M ℕ
dup oldd = do
  ino ← getinode oldd
  elim ino [
    | none ↦ pure minus_one
    | some i ↦ do
      newd ← uf_alloc
      if newd == minus_one then pure minus_one else share oldd newd >> pure newd
  ]

pub dup2 : ℕ → ℕ → M ℕ
dup2 oldd newd = do
  ino ← getinode oldd
  elim ino [
    | none ↦ pure minus_one
    | some i ↦ if leb uftsize newd then modify (set_error ebadf) >> pure minus_one else do
      f ← file_at newd
      if is_unused f then pure tt else doclose newd >> pure tt
      share oldd newd
      pure 0
  ]

pub rwsetup : ℕ → ℕ → ℕ → Bool → M (Option ℕ)
rwsetup d buf nbytes reading = do
  modify (λ k. put_udata (record (k.udata) { u_base = buf; u_count = nbytes }) k)
  ino ← getinode d
  elim ino [
    | none ↦ pure none
    | some i ↦ do
      f ← file_at d
      o ← oft_at f
      if o.o_access == (if reading then o_wronly else o_rdonly)
          then modify (set_error ebadf) >> pure none
          else do
            setftime i (if reading then a_time else a_time + m_time + c_time)
            modify (λ k. put_udata (record (k.udata) { u_offset = o.o_ptr }) k)
            pure (some i)
  ]

pub updoff : ℕ → M (Unit {0})
updoff d = do
  f ← file_at d
  o ← oft_at f
  modify (λ k. put_oft f (record o { o_ptr = k.udata.u_offset }) k)

-- The switch of `_seek`, from the old position and the file's size.
pub seek_to : Off → Off → ℕ → ℕ → Option Off
seek_to ptr size offset flag =
    if flag == 0
    then some (record { o_blkno = 0; o_offset = offset })
    else if flag == 1
    then some (record ptr { o_offset = add16 ptr.o_offset offset })
    else if flag == 2
    then some (record { o_blkno = size.o_blkno; o_offset = add16 size.o_offset offset })
    else if flag == 3
    then some (record ptr { o_blkno = offset })
    else if flag == 4
    then some (record ptr { o_blkno = add16 ptr.o_blkno offset })
    else if flag == 5
    then some (record ptr { o_blkno = add16 size.o_blkno offset })
    else none

-- A negative `flag` is a pattern from 32768 on; `retval` is unused for it.
pub seek : ℕ → ℕ → ℕ → M ℕ
seek file offset flag = do
  ino ← getinode file
  elim ino [
    | none ↦ pure minus_one
    | some i ↦ do
      c ← inode_at i
      if getmode c == f_pipe then modify (set_error espipe) >> pure minus_one else do
        f ← file_at file
        o ← oft_at f
        let retval = if leb flag 2 then o.o_ptr.o_offset else o.o_ptr.o_blkno
        elim (seek_to o.o_ptr c.c_node.i_size offset flag) [
          | none ↦ modify (set_error einval) >> pure minus_one
          | some to ↦ do modify (put_oft f (record o { o_ptr = settle 128 to })); pure retval
        ]
  ]

pub umask : ℕ → M ℕ
umask mask = do
  u ← gets (λ k. k.udata)
  modify (put_udata (record u { u_mask = bit_and mask 0x1ff }))
  pure u.u_mask

abbrev ptab_at : ℕ → M PTab
ptab_at i k = entry (get_elem? k.ptab i) k

-- `p_uid` is compared with and assigned from an `int`.
pub setuid : ℕ → M ℕ
setuid uid = do
  u ← gets (λ k. k.udata)
  p ← ptab_at u.u_ptab
  if super u || p.p_uid == uid
      then (do
        modify (λ k. record k { ptab = set k.ptab u.u_ptab (record p { p_uid = uid }) })
        modify (put_udata (record u { u_euid = uid }))
        pure 0)
      else modify (set_error eperm) >> pure minus_one

pub setgid : ℕ → M ℕ
setgid gid = do
  u ← gets (λ k. k.udata)
  if super u || u.u_gid == gid
      then (do modify (put_udata (record u { u_gid = gid; u_egid = gid })); pure 0)
      else modify (set_error eperm) >> pure minus_one
