-- ===== src/Calls/Names.antt =====
-- `_link`, `_unlink`, `_mknod` and `_chdir` of uzi-nes-port/kernel/scall1.c.
use uzi_build.Prelude.{
  ℕ, ◌+◌, ◌-◌, Bool, true, false, not, ◌&&◌, List, [], Option, none, some, ◌==◌, if◌then◌else◌, set,
  add16, bit_and, minus_one,
}
use uzi_build.Kernel.{M, pure, wild, gets, modify, set_error, ◌>>=◌, ◌>>◌}
use uzi_build.Inode.Table.{
  f_dir, inode_at, put_inode, isdevice, getmode, super, setftime, wr_inode, a_time, m_time, c_time,
}
use uzi_build.Inode.Blocks.{i_deref}
use uzi_build.Files.Calls.{put_udata}
use uzi_build.Path.{filename, n_open}
use uzi_build.Process.Waiting.{Others}
use uzi_build.Devices.{Drivers}
use uzi_build.Entry.{ch_link, newfile}
use uzi_build.Calls.Numbers.{eperm, enoent, eexist, exdev, enotdir, complement, fails}

-- `getmode(ino) == F_DIR && !super()`
protected : ℕ → M Bool
protected ino = do
  c ← inode_at ino
  u ← gets (λ k. k.udata)
  pure (getmode c == f_dir && not (super u))

-- The label `nogood` of `_link`.
let_go : ℕ → M ℕ
let_go ino = i_deref ino >> pure minus_one

-- `++ino->c_node.i_nlink`
add_link : ℕ → M (Unit {0})
add_link ino = do
  c ← inode_at ino
  let d = c.c_node
  modify (put_inode ino (record c { c_node = record d { i_nlink = add16 d.i_nlink 1 } }))

-- From the comparison of the devices on.
link_in : Drivers → Others → ℕ → List ℕ → List ℕ → ℕ → ℕ → M ℕ
link_in dev_tab others at junk name2 ino parent2 = do
  c ← inode_at ino
  p ← inode_at parent2
  if not (c.c_dev == p.c_dev) then (do i_deref parent2; fails exdev; let_go ino) else do
    linked ← ch_link dev_tab others at junk parent2 [] (filename name2) (some ino)
    if linked == 0 then let_go ino else do
      add_link ino
      wr_inode ino
      setftime ino c_time
      i_deref parent2
      i_deref ino
      pure 0

-- A pointer that is null is dereferenced.
deref_or_wild : Option ℕ → M (Unit {0})
deref_or_wild none = λ _. wild
deref_or_wild (some i) = i_deref i

pub link : Drivers → Others → ℕ → List ℕ → List ℕ → List ℕ → M ℕ
link dev_tab others at junk name1 name2 = do
  (found, unused) ← n_open name1 false
  elim found [
    | none ↦ pure minus_one
    | some ino ↦ do
      bad ← protected ino
      if bad then fails eperm >> let_go ino else do
        (ino2, parent2) ← n_open name2 true
        elim ino2 [
          | some other ↦ do i_deref other; deref_or_wild parent2; fails eexist; let_go ino
          | none ↦ elim parent2 [
            | none ↦ let_go ino
            | some p ↦ link_in dev_tab others at junk name2 ino p
          ]
        ]
  ]

-- The link count goes down by one, and from 0 up to 1.
drop_link : ℕ → M (Unit {0})
drop_link ino = do
  c ← inode_at ino
  let d = c.c_node
  let left = if d.i_nlink == 0 then 1 else d.i_nlink - 1
  modify (put_inode ino (record c { c_node = record d { i_nlink = left } }))

-- Both inodes are given up, and the call answers with the number.
give_up : ℕ → ℕ → ℕ → M ℕ
give_up pino ino r = do i_deref pino; i_deref ino; pure r

-- `blank` is what stands at the address of the string "".
unlink_from : Drivers → Others → ℕ → List ℕ → List ℕ → List ℕ → ℕ → ℕ → M ℕ
unlink_from dev_tab others at junk blank path pino ino = do
  bad ← protected ino
  if bad then fails eperm >> give_up pino ino minus_one else do
    gone ← ch_link dev_tab others at junk pino (filename path) blank none
    if gone == 0
        then give_up pino ino minus_one
        else do drop_link ino; setftime ino c_time; give_up pino ino 0

pub unlink : Drivers → Others → ℕ → List ℕ → List ℕ → List ℕ → M ℕ
unlink dev_tab others at junk blank path = do
  (found, parent) ← n_open path true
  elim parent [
    | none ↦ fails enoent
    | some pino ↦ elim found [
      | none ↦ fails enoent
      | some ino ↦ unlink_from dev_tab others at junk blank path pino ino
    ]
  ]

-- Mode and device number of a new special file.
special : ℕ → ℕ → ℕ → M (Unit {0})
special ino mode dev = do
  c ← inode_at ino
  mask ← gets (λ k. k.udata.u_mask)
  let c' = record c { c_node = record (c.c_node) { i_mode = bit_and mode (complement mask) } }
  let addr = set c.c_node.i_addr 0 (if isdevice c' then dev else 0)
  modify (put_inode ino (record c' { c_node = record (c'.c_node) { i_addr = addr } }))
  setftime ino (a_time + m_time + c_time)
  wr_inode ino

pub mknod : Drivers → Others → ℕ → List ℕ → List ℕ → ℕ → ℕ → M ℕ
mknod dev_tab others at junk name mode dev = do
  modify (set_error 0)
  u ← gets (λ k. k.udata)
  if not (super u) then fails eperm else do
    (found, parent) ← n_open name true
    elim found [
      | some ino ↦ do fails eexist; i_deref ino; deref_or_wild parent; pure minus_one
      | none ↦ elim parent [
        | none ↦ fails enoent
        | some p ↦ do
          new ← newfile dev_tab others at junk p name
          elim new [
            | none ↦ i_deref p >> pure minus_one
            | some ino ↦ do special ino mode dev; i_deref ino; pure 0
          ]
      ]
    ]

pub chdir : List ℕ → M ℕ
chdir dir = do
  (found, unused) ← n_open dir false
  elim found [
    | none ↦ pure minus_one
    | some newcwd ↦ do
      c ← inode_at newcwd
      if not (getmode c == f_dir) then fails enotdir >> let_go newcwd else do
        cwd ← gets (λ k. k.udata.u_cwd)
        i_deref cwd
        modify (λ k. put_udata (record (k.udata) { u_cwd = newcwd }) k)
        pure 0
  ]
