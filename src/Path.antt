-- ===== src/Path.antt =====
-- Path names in uzi-nes-port/fs/filesys.c: `namecomp`, `filename`, `srch_dir` and `n_open`. A string is
-- the list of the bytes from its address on, and a byte past the end of the list is 0.
pub mod Compare
pub mod Last
pub mod Blocks
pub mod Search
use uzi_build.Prelude.{
  ℕ, zero, suc, ◌+◌, ◌-◌, ◌*◌, ◌/◌, ◌%◌, Bool, true, false, not, ◌&&◌, ◌||◌, List, [], ◌∷◌, Option,
  none, some, ◌==◌, ltb, leb, if◌then◌else◌, get_or, get_elem?, take, drop, length, bit_and,
  minus_one, add8, add16,
}
use uzi_build.Kernel.{Kernel, Cinode, M, pure, wild, modify, gets, entry, set_error, ◌>>=◌, ◌>>◌}
use uzi_build.Kernel.Bytes.{word_at}
use uzi_build.Buffer.{read_block}
use uzi_build.FreeList.{fs_at}
use uzi_build.Inode.Table.{f_dir, oth_ex, inode_at, put_inode, magic, getmode, getperm, i_ref}
use uzi_build.Inode.Blocks.{bmap, i_deref}
use uzi_build.Inode.Open.{i_open, srch_mt, rootinode}

abbrev pub slash : ℕ
slash = 0x2f

abbrev pub dot : ℕ
dot = 0x2e

-- Whether a name ends at this character.
abbrev pub at_end : ℕ → Bool
at_end c = c == 0 || c == slash

abbrev ends_too : List ℕ → ℕ
ends_too n2 = if at_end (get_or n2 0 0) then 1 else 0

-- The loop of `namecomp` with `n` characters to go.
unfoldable pub compare_names : ℕ → List ℕ → List ℕ → ℕ
compare_names n [] n2 = ends_too n2
compare_names n (c ∷ n1) n2 =
    if at_end c
    then ends_too n2
    else if not (c == get_or n2 0 0)
    then 0
    else if n == 1
    then minus_one
    else compare_names (n - 1) n1 (drop 1 n2)

unfoldable pub namecomp : List ℕ → List ℕ → ℕ
namecomp n1 n2 = compare_names 14 n1 n2

-- The second loop of `filename`, from character `p` back: where the result begins.
last_start : List ℕ → ℕ → ℕ
last_start path zero = if get_or path 0 0 == slash then 1 else 0
last_start path (suc p) = if get_or path (suc p) 0 == slash then suc (suc p) else last_start path p

-- The first loop of `filename`: where the string ends.
pub string_end : List ℕ → ℕ
string_end [] = 0
string_end (c ∷ cs) = if c == 0 then 0 else suc (string_end cs)

pub filename : List ℕ → List ℕ
filename path = drop (last_start path (string_end path)) path

-- The first of the `n` directory entries from entry `e` of a block that bears the name.
pub find_entry : List ℕ → List ℕ → ℕ → ℕ → Option ℕ
find_entry name bytes e zero = none
find_entry name bytes e (suc n) =
    if not (namecomp name (take 14 (drop (16 * e + 2) bytes)) == 0)
    then some (word_at bytes (8 * e))
    else find_entry name bytes (e + 1) n

-- `n` blocks of the directory from block `blk` on.
search_blocks : ℕ → ℕ → List ℕ → ℕ → ℕ → M (Option ℕ)
search_blocks wd dev name blk zero = pure none
search_blocks wd dev name blk (suc n) = do
  nb ← bmap wd blk 1
  bytes ← read_block dev nb
  elim (find_entry name bytes 0 32) [
    | some inum ↦ i_open dev inum
    | none ↦ search_blocks wd dev name (blk + 1) n
  ]

pub srch_dir : ℕ → List ℕ → M (Option ℕ)
srch_dir wd compname = do
  c ← inode_at wd
  let size = c.c_node.i_size
  search_blocks wd c.c_dev compname 0
      (if size.o_offset == 0 then size.o_blkno else add16 size.o_blkno 1)

pub skip_slashes : List ℕ → List ℕ
skip_slashes [] = []
skip_slashes (c ∷ cs) = if c == slash then skip_slashes cs else c ∷ cs

pub skip_name : List ℕ → List ℕ
skip_name [] = []
skip_name (c ∷ cs) = if at_end c then c ∷ cs else skip_name cs

abbrev enoent : ℕ
enoent = 2

abbrev enotdir : ℕ
enotdir = 20

abbrev eperm : ℕ
eperm = 1

-- `ninode` after `magic` and `srch_mt`, if it is not null.
cross_mount : Option ℕ → M (Option ℕ)
cross_mount none = pure none
cross_mount (some i) = magic i >> srch_mt i

-- Up through a mount point: the directory to search in place of `wd`. `ROOTDEV` is `rootdev`.
climb : ℕ → List ℕ → M ℕ
climb wd name = do
  c ← inode_at wd
  dev ← gets (λ k. k.rootdev)
  if c.c_num == rootinode && not (c.c_dev == dev) && get_or name 1 0 == dot
      then (do
        f ← fs_at c.c_dev
        temp ← entry f.s_mntpt
        t ← inode_at temp
        modify (put_inode temp (record t { c_refs = add8 t.c_refs 1 }))
        i_deref wd
        pure temp)
      else pure wd

-- The label `nodir`: no parent, no file.
no_dir : ℕ → ℕ → M (Option ℕ × Option ℕ)
no_dir error wd = modify (set_error error) >> i_deref wd >> pure (none, none)

-- The checks on the directory `wd` before it is searched: the error, if any.
refused : ℕ → M (Option ℕ)
refused wd = do
  c ← inode_at wd
  u ← gets (λ k. k.udata)
  pure (
      if not (getmode c == f_dir)
      then some enotdir
      else if bit_and (getperm u c) oth_ex == 0
      then some eperm
      else none)

-- The loop of `n_open`: the file and the directory it is in. Every round takes at least one character off
-- the path, so one round more than its length is enough.
walk : ℕ → List ℕ → ℕ → Option ℕ → M (Option ℕ × Option ℕ)
walk zero name wd ninode = λ _. wild
walk (suc rounds) name wd ninode = do
  here ← cross_mount ninode
  let rest = skip_slashes name
  if get_or rest 0 0 == 0 then pure (here, some wd) else elim here [
    | none ↦ no_dir enoent wd
    | some dir ↦ do
      i_deref wd
      error ← refused dir
      elim error [
        | some e ↦ no_dir e dir
        | none ↦ do
          from ← climb dir rest
          found ← srch_dir from rest
          walk rounds (skip_name rest) from found
      ]
  ]

-- With a parent wanted, the result is the file and the parent; else the parent is given up.
pub n_open : List ℕ → Bool → M (Option ℕ × Option ℕ)
n_open name with_parent = do
  wd ← gets (λ k. if get_or name 0 0 == slash then k.root else k.udata.u_cwd)
  i_ref wd
  i_ref wd
  (ninode, dir) ← walk (suc (length name)) name wd (some wd)
  if with_parent then pure (ninode, dir) else elim dir [
    | none ↦ pure (none, none)
    | some d ↦ do
      i_deref d
      modify (λ k. elim ninode [ none ↦ set_error enoent k | some i ↦ k ])
      pure (ninode, none)
  ]
