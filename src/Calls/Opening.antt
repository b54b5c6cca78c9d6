-- ===== src/Calls/Opening.antt =====
-- `_open`, `_creat` and `_pipe` of uzi-nes-port/kernel/scall1.c.
use uzi_build.Prelude.{
  ℕ, ◌+◌, Bool, true, false, not, ◌&&◌, ◌||◌, List, [], ◌∷◌, Option, none, some, ◌==◌, ltb,
  if◌then◌else◌, map, add8, bit_and, bit_or, minus_one,
}
use uzi_build.Kernel.{Oft, Cinode, M, pure, wild, gets, modify, ◌>>=◌, ◌>>◌}
use uzi_build.Kernel.Bytes.{bytes_of_words}
use uzi_build.Kernel.Memory.{put_bytes}
use uzi_build.Inode.Table.{
  f_reg, f_dir, f_pipe, oth_rd, oth_wr, inode_at, put_inode, isdevice, devnum, getmode, getperm,
  setftime, wr_inode, a_time, m_time, c_time,
}
use uzi_build.Inode.Blocks.{f_trunc, i_deref}
use uzi_build.Inode.Open.{i_open}
use uzi_build.Files.Table.{oft_at, put_oft, oft_alloc, oft_deref, uf_alloc}
use uzi_build.Files.Calls.{put_file, o_rdonly, o_wronly}
use uzi_build.Path.{n_open}
use uzi_build.Process.Waiting.{Others}
use uzi_build.Devices.{Drivers, d_open}
use uzi_build.Entry.{start, newfile}
use uzi_build.Calls.Numbers.{
  eperm, enxio, eacces, eisdir, einval, o_rdwr, mode_mask, complement, fails,
}

-- The label `cantopen` of `_open`.
cant_open : ℕ → ℕ → M ℕ
cant_open uindex oftindex = do oft_deref oftindex; modify (put_file uindex 255); pure minus_one

-- The three tests of `_open` on the inode: the error, if any.
abbrev pub reads : ℕ → Bool
reads flag = flag == o_rdonly || flag == o_rdwr

abbrev pub writes : ℕ → Bool
writes flag = flag == o_wronly || flag == o_rdwr

forbidden : ℕ → ℕ → Cinode → Option ℕ
forbidden flag perm c =
    if (reads flag && bit_and perm oth_rd == 0) || (writes flag && bit_and perm oth_wr == 0)
    then some eperm
    else if getmode c == f_dir && writes flag
    then some eisdir
    else none

-- `isdevice(ino) && d_open(…) != 0`
no_device : Drivers → Cinode → M Bool
no_device dev_tab c =
    if isdevice c then (do r ← d_open dev_tab (devnum c); pure (not (r == 0))) else pure false

-- The open file at the start of the inode, and the descriptor for it.
abbrev pub at_start : Option ℕ → ℕ → Oft → Oft
at_start ino flag o = record o { o_ptr = start; o_inode = ino; o_access = flag }

install : ℕ → ℕ → ℕ → Option ℕ → M ℕ
install uindex oftindex flag ino = do
  modify (put_file uindex oftindex)
  o ← oft_at oftindex
  modify (put_oft oftindex (at_start ino flag o))
  pure uindex

-- From `of_tab[oftindex].o_inode = ino` on.
open_inode : Drivers → ℕ → ℕ → ℕ → ℕ → M ℕ
open_inode dev_tab flag uindex oftindex ino = do
  o ← oft_at oftindex
  modify (put_oft oftindex (record o { o_inode = some ino }))
  c ← inode_at ino
  u ← gets (λ k. k.udata)
  elim (forbidden flag (getperm u c) c) [
    | some e ↦ fails e >> cant_open uindex oftindex
    | none ↦ do
      bad ← no_device dev_tab c
      if bad
          then fails enxio >> cant_open uindex oftindex
          else install uindex oftindex flag (some ino)
  ]

-- A negative `flag` is a pattern from 32768 on.
pub open_file : Drivers → List ℕ → ℕ → M ℕ
open_file dev_tab name flag = if ltb 2 flag then fails einval else do
  uindex ← uf_alloc
  if uindex == minus_one then pure minus_one else do
    oftindex ← oft_alloc
    if oftindex == minus_one then modify (put_file uindex 255) >> pure minus_one else do
      (ino, parent) ← n_open name false
      elim ino [
        | none ↦ cant_open uindex oftindex
        | some i ↦ open_inode dev_tab flag uindex oftindex i
      ]

-- `if (of_tab[j].o_inode == ino) …` for the whole table.
abbrev pub rewound : ℕ → Oft → Oft
rewound i o = elim o.o_inode [
  | none ↦ o
  | some j ↦ if j == i then record o { o_ptr = start } else o
]

-- The file exists: it is emptied. The result is whether it may be written.
reuse : ℕ → M Bool
reuse ino = do
  c ← inode_at ino
  u ← gets (λ k. k.udata)
  if getmode c == f_dir
      then (do i_deref ino; fails eisdir; pure false)
      else if bit_and (getperm u c) oth_wr == 0
      then (do i_deref ino; fails eacces; pure false)
      else if not (getmode c == f_reg)
      then pure true
      else do f_trunc ino; modify (λ k. record k { of_tab = map (rewound ino) k.of_tab }); pure true

-- `newfile` has dereferenced the parent, whatever it returns.
make : Drivers → Others → ℕ → List ℕ → ℕ → List ℕ → ℕ → M (Option ℕ)
make dev_tab others at junk parent name mode = do
  new ← newfile dev_tab others at junk parent name
  elim new [
    | none ↦ i_deref parent >> pure none
    | some ino ↦ do
      c ← inode_at ino
      mask ← gets (λ k. k.udata.u_mask)
      let bits = bit_and (bit_and mode mode_mask) (complement mask)
      modify
          (put_inode ino (record c { c_node = record (c.c_node) { i_mode = bit_or f_reg bits } }))
      setftime ino (a_time + m_time + c_time)
      wr_inode ino
      pure (some ino)
  ]

-- The inode to be written to, if there is one.
creat_inode : Drivers → Others → ℕ → List ℕ → List ℕ → ℕ → M (Option ℕ)
creat_inode dev_tab others at junk name mode = do
  (ino, parent) ← n_open name true
  elim ino [
    | some i ↦ do
      elim parent [ none ↦ (λ _. wild) | some p ↦ i_deref p ]
      fine ← reuse i
      pure (if fine then some i else none)
    | none ↦ elim parent [ none ↦ pure none | some p ↦ make dev_tab others at junk p name mode ]
  ]

pub creat : Drivers → Others → ℕ → List ℕ → List ℕ → ℕ → M ℕ
creat dev_tab others at junk name mode = do
  uindex ← uf_alloc
  if uindex == minus_one then pure minus_one else do
    oftindex ← oft_alloc
    if oftindex == minus_one then pure minus_one else do
      ino ← creat_inode dev_tab others at junk name mode
      elim ino [
        | none ↦ oft_deref oftindex >> pure minus_one
        | some i ↦ install uindex oftindex o_wronly (some i)
      ]

-- The label `nogood` of `_pipe`.
give_up : ℕ → M ℕ
give_up u1 = modify (put_file u1 255) >> pure minus_one

-- The inode becomes a pipe with two references.
become_pipe : ℕ → M (Unit {0})
become_pipe i = do
  c ← inode_at i
  modify (
      put_inode i (record c {
        c_refs = add8 c.c_refs 1;
        c_node = record (c.c_node) { i_mode = bit_or f_pipe 0x1ff; i_nlink = 0 };
      }))

-- From `udata.u_files[u2] = oft2` on; the descriptors are stored at `fildes`.
join : ℕ → ℕ → ℕ → ℕ → ℕ → ℕ → M ℕ
join fildes u1 u2 oft1 oft2 i = do
  modify (put_file u2 oft2)
  o1 ← oft_at oft1
  modify (put_oft oft1 (at_start (some i) o_rdonly o1))
  o2 ← oft_at oft2
  modify (put_oft oft2 (at_start (some i) o_wronly o2))
  become_pipe i
  modify (put_bytes fildes (bytes_of_words (u1 ∷ u2 ∷ [])))
  pure 0

pub pipe : ℕ → M ℕ
pipe fildes = do
  u1 ← uf_alloc
  if u1 == minus_one then pure minus_one else do
    oft1 ← oft_alloc
    if oft1 == minus_one then pure minus_one else do
      modify (put_file u1 oft1)
      u2 ← uf_alloc
      if u2 == minus_one then give_up u1 else do
        oft2 ← oft_alloc
        if oft2 == minus_one then oft_deref oft1 >> give_up u1 else do
          rootdev ← gets (λ k. k.rootdev)
          ino ← i_open rootdev 0
          elim ino [
            | none ↦ do oft_deref oft1; oft_deref oft2; give_up u1
            | some i ↦ join fildes u1 u2 oft1 oft2 i
          ]
