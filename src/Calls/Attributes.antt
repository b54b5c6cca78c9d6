-- ===== src/Calls/Attributes.antt =====
-- `_access`, `_chmod`, `_chown`, `_stat`, `_fstat` and `stcpy` of uzi-nes-port/kernel/scall1.c.
pub mod Identity
use uzi_build.Prelude.{
  ℕ, ◌-◌, Bool, false, not, ◌&&◌, ◌||◌, List, [], ◌∷◌, Option, none, some, ◌==◌, if◌then◌else◌,
  get_or, get_elem?, bit_and, bit_or, minus_one,
}
use uzi_build.Kernel.{Kernel, UData, Cinode, Dinode, M, pure, gets, modify, entry, ◌>>=◌, ◌>>◌}
use uzi_build.Kernel.Bytes.{bytes_of_words}
use uzi_build.Kernel.Memory.{put_bytes, valadr}
use uzi_build.Inode.Table.{f_mask, inode_at, put_inode, devnum, super, getperm, setftime, c_time}
use uzi_build.Inode.Blocks.{i_deref}
use uzi_build.Files.Table.{getinode}
use uzi_build.Files.Calls.{put_udata}
use uzi_build.Path.{n_open}
use uzi_build.Calls.Numbers.{eperm, enoent, mode_mask, complement, fails}

abbrev pub put_ids : ℕ → ℕ → Kernel → Kernel
put_ids euid egid k = put_udata (record (k.udata) { u_euid = euid; u_egid = egid }) k

-- The part of `_access` under the real identity.
probe : List ℕ → ℕ → M ℕ
probe path mode = do
  (found, unused) ← n_open path false
  elim found [
    | none ↦ pure minus_one
    | some ino ↦ do
      c ← inode_at ino
      u ← gets (λ k. k.udata)
      r ← (if bit_and (complement (getperm u c)) (bit_and mode 7) == 0 then pure 0 else fails eperm)
      i_deref ino
      pure r
  ]

pub access : List ℕ → ℕ → M ℕ
access path mode = if not (bit_and mode 7 == 0) && get_or path 0 0 == 0 then fails enoent else do
  u ← gets (λ k. k.udata)
  p ← (λ k. entry (get_elem? k.ptab u.u_ptab) k)
  modify (put_ids p.p_uid u.u_gid)
  r ← probe path mode
  modify (put_ids u.u_euid u.u_egid)
  pure r

-- The inode is changed by its owner or the superuser.
change_inode : List ℕ → (Dinode → Dinode) → M ℕ
change_inode path f = do
  (found, unused) ← n_open path false
  elim found [
    | none ↦ pure minus_one
    | some ino ↦ do
      c ← inode_at ino
      u ← gets (λ k. k.udata)
      if not (c.c_node.i_uid == u.u_euid) && not (super u) then i_deref ino >> fails eperm else do
        modify (put_inode ino (record c { c_node = f c.c_node }))
        setftime ino c_time
        i_deref ino
        pure 0
  ]

abbrev pub with_mode : ℕ → Dinode → Dinode
with_mode mode d = record d { i_mode = bit_or (bit_and mode mode_mask) (bit_and d.i_mode f_mask) }

abbrev pub with_owner : ℕ → ℕ → Dinode → Dinode
with_owner owner group d = record d { i_uid = owner; i_gid = group }

pub chmod : List ℕ → ℕ → M ℕ
chmod path mode = change_inode path (with_mode mode)

pub chown : List ℕ → ℕ → ℕ → M ℕ
chown path owner group = change_inode path (with_owner owner group)

-- `sizeof(struct stat)`
abbrev pub stat_size : ℕ
stat_size = 30

-- What `stcpy` copies: 12 bytes from `c_dev` on, the first address, and 16 bytes from `i_size` on.
pub stat_words : Cinode → List ℕ
stat_words c =
    let d = c.c_node in
    c.c_dev
    ∷ c.c_num
    ∷ d.i_mode
    ∷ d.i_nlink
    ∷ d.i_uid
    ∷ d.i_gid
    ∷ devnum c
    ∷ d.i_size.o_blkno
    ∷ d.i_size.o_offset
    ∷ d.i_atime.t_time
    ∷ d.i_atime.t_date
    ∷ d.i_mtime.t_time
    ∷ d.i_mtime.t_date
    ∷ d.i_ctime.t_time
    ∷ d.i_ctime.t_date
    ∷ []

pub stcpy : ℕ → ℕ → M (Unit {0})
stcpy ino buf = do c ← inode_at ino; modify (put_bytes buf (bytes_of_words (stat_words c)))

pub stat : List ℕ → ℕ → M ℕ
stat path buf = do
  fine ← valadr buf stat_size
  if not fine then pure minus_one else do
    (found, unused) ← n_open path false
    elim found [ none ↦ pure minus_one | some ino ↦ do stcpy ino buf; i_deref ino; pure 0 ]

pub fstat : ℕ → ℕ → M ℕ
fstat fd buf = do
  fine ← valadr buf stat_size
  if not fine then pure minus_one else do
    found ← getinode fd
    elim found [ none ↦ pure minus_one | some ino ↦ do stcpy ino buf; pure 0 ]
