-- ===== src/Entry.antt =====
-- Directory entries and new files in uzi-nes-port/fs/filesys.c: `ch_link` and `newfile`. An entry is 16
-- bytes, an inode number and a name of 14.
pub mod Finding
pub mod Linking
use uzi_build.Prelude.{
  ℕ, zero, suc, ◌+◌, ◌-◌, ◌*◌, ◌/◌, ◌%◌, Bool, not, ◌&&◌, ◌||◌, List, [], ◌∷◌, ◌++◌, Option, none,
  some, ◌==◌, ltb, if◌then◌else◌, get_or, take, drop, length, replicate, bit_and, add16, sub16,
}
use uzi_build.Kernel.{Kernel, Off, Dinode, M, pure, wild, gets, modify, set_error, ◌>>=◌, ◌>>◌}
use uzi_build.Kernel.Bytes.{bytes_of_words}
use uzi_build.Format.{naddr}
use uzi_build.Inode.Table.{
  f_reg, oth_wr, inode_at, put_inode, getperm, setftime, wr_inode, a_time, m_time, c_time,
}
use uzi_build.Inode.Blocks.{i_deref}
use uzi_build.Inode.Open.{i_open}
use uzi_build.Path.{namecomp, filename}
use uzi_build.Files.Calls.{put_udata}
use uzi_build.Process.Waiting.{Others}
use uzi_build.Devices.{Drivers}
use uzi_build.Transfer.{put_offset, patch, readi, writei}

abbrev pub eperm : ℕ
eperm = 1

abbrev pub entry_size : ℕ
entry_size = 16

abbrev pub start : Off
start = record { o_blkno = 0; o_offset = 0 }

-- `curentry.d_name`
abbrev pub entry_name : List ℕ → List ℕ
entry_name curentry = drop 2 curentry

-- `udata.u_count = 16; udata.u_base = (char *) &curentry;`; the address is that of a local variable.
want_entry : ℕ → Kernel → Kernel
want_entry at k = put_udata (record (k.udata) { u_count = entry_size; u_base = at }) k

-- The first loop of `ch_link`, with `curentry` so far: what it is at the end. Every round takes an entry of the
-- directory, or the rest of it.
pub find_slot : Drivers → Others → ℕ → ℕ → ℕ → List ℕ → List ℕ → M (List ℕ)
find_slot dev_tab others at zero wd oldname curentry = λ _. wild
find_slot dev_tab others at (suc rounds) wd oldname curentry = do
  modify (want_entry at)
  bytes ← readi dev_tab others wd
  n ← gets (λ k. k.udata.u_count)
  let curentry' = patch curentry 0 bytes
  if n == 0 || not (namecomp oldname (entry_name curentry') == 0)
      then pure curentry'
      else find_slot dev_tab others at rounds wd oldname curentry'

-- Back by one entry, which has just been read.
pub back_up : Off → Off
back_up o =
    if o.o_offset == 0
    then record { o_blkno = sub16 o.o_blkno 1; o_offset = 512 - entry_size }
    else record o { o_offset = sub16 o.o_offset entry_size }

-- `bcopy(newname, curentry.d_name, 14)`: fourteen bytes, whatever they are behind the end of the name.
abbrev pub name_field : List ℕ → List ℕ
name_field newname = take 14 newname

-- The length of a directory rounded up to whole blocks.
pub round_up : ℕ → M (Unit {0})
round_up wd = do
  c ← inode_at wd
  let size = c.c_node.i_size
  let whole : Off = record { o_blkno = add16 size.o_blkno 1; o_offset = 0 }
  modify (λ k.
      if size.o_offset == 0
      then k
      else put_inode wd (record c { c_node = record (c.c_node) { i_size = whole } }) k)

-- The new entry goes where the search ended.
pub put_entry : Drivers → Others → ℕ → ℕ → List ℕ → M ℕ
put_entry dev_tab others at wd curentry = do
  modify (λ k. if k.udata.u_count == 0 then k else put_offset (back_up k.udata.u_offset) k)
  modify (want_entry at)
  writei dev_tab others wd curentry
  error ← gets (λ k. k.udata.u_error)
  if not (error == 0)
      then pure 0
      else do setftime wd (a_time + m_time + c_time); round_up wd; pure 1

-- The inode number of an entry, 0 for none.
number_of : Option ℕ → M ℕ
number_of none = pure 0
number_of (some i) = do c ← inode_at i; pure c.c_num

-- As many rounds as the directory has entries, and two more.
abbrev pub entries : Off → ℕ
entries size = 32 * size.o_blkno + size.o_offset / entry_size + 2

-- The result is 1, or 0 for an error. `at` is the address of `curentry`, whose bytes at first are
-- `junk`. The copy of the new name goes outside of what the list gives if it has fewer than 14 bytes.
pub ch_link : Drivers → Others → ℕ → List ℕ → ℕ → List ℕ → List ℕ → Option ℕ → M ℕ
ch_link dev_tab others at junk wd oldname newname nindex = do
  c ← inode_at wd
  u ← gets (λ k. k.udata)
  if bit_and (getperm u c) oth_wr == 0 then modify (set_error eperm) >> pure 0 else do
    modify (put_offset start)
    curentry ← find_slot dev_tab others at (entries c.c_node.i_size) wd oldname junk
    n ← gets (λ k. k.udata.u_count)
    if n == 0 && not (get_or oldname 0 0 == 0) then pure 0 else do
      if ltb (length newname) 14 then (λ _. wild) else do
        ino ← number_of nindex
        put_entry dev_tab others at wd (bytes_of_words (ino ∷ []) ++ name_field newname)

-- The inode of a file that is being made.
abbrev pub fresh : Dinode → Dinode
fresh d = record d { i_mode = f_reg; i_nlink = 1; i_size = start; i_addr = replicate naddr 0 }

-- The parent is dereferenced on every way out.
pub newfile : Drivers → Others → ℕ → List ℕ → ℕ → List ℕ → M (Option ℕ)
newfile dev_tab others at junk pino name = do
  p ← inode_at pino
  nindex ← i_open p.c_dev 0
  elim nindex [
    | none ↦ i_deref pino >> pure none
    | some i ↦ do
      c ← inode_at i
      modify (put_inode i (record c { c_node = fresh c.c_node }))
      wr_inode i
      linked ← ch_link dev_tab others at junk pino [] (filename name) (some i)
      if linked == 0 then (do i_deref i; i_deref pino; pure none) else i_deref pino >> pure (some i)
  ]
