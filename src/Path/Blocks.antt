-- ===== src/Path/Blocks.antt =====
-- The blocks of a directory, as `srch_dir` of uzi-nes-port/fs/filesys.c reads them.
use uzi_build.Prelude.{
  ℕ, zero, suc, ◌+◌, ◌*◌, ◌/◌, ◌%◌, ◌≡◌, ◌≢◌, ◌≤◌, ◌<◌, refl, ap, ◌∙◌, inl, inr, Bool, true, false,
  not, List, Option, none, some, arith, ◌==◌, if◌then◌else◌, get_elem?, take, drop, Bool-cases,
  add16, replicate,
}
use mathlib.Core.Path.{fun_ext}
use uzi_build.Kernel.{Kernel, Cinode, M, ◌>>=◌}
use uzi_build.Kernel.Bytes.{word_at}
use uzi_build.Buffer.{read_block, ndevs, block_size}
use uzi_build.Buffer.View.{view}
use uzi_build.Buffer.Use.{Undisturbed, read_block-sees}
use uzi_build.FreeList.Super.{Quiet}
use uzi_build.Inode.Table.{f_bdev, getmode}
use uzi_build.Inode.Blocks.{bmap, block_or_null}
use uzi_build.Inode.Blocks.Reading.{mapped, bmap_reads, Undisturbed-then}
use uzi_build.Path.{namecomp, find_entry}

-- The block of the device that is read for block `bn` of a directory: one that is not there is block 65535.
abbrev pub dir_block : Kernel → Cinode → ℕ → List ℕ
dir_block k c bn = view k c.c_dev (block_or_null (mapped (view k c.c_dev) c.c_node.i_addr bn))

-- The bytes of a block of a file; those of a block that is not there are zeroes.
abbrev pub bytes_at : (ℕ → List ℕ) → Option ℕ → List ℕ
bytes_at see none = replicate block_size 0
bytes_at see (some nb) = see nb

abbrev pub dir_bytes : Kernel → Cinode → ℕ → List ℕ
dir_bytes k c bn = bytes_at (view k c.c_dev) (mapped (view k c.c_dev) c.c_node.i_addr bn)

-- All blocks of the directory are there.
abbrev pub HasNoGap : Kernel → Cinode → ℕ → Type 0
HasNoGap k c n =
    (bn : ℕ) → bn < n → (nb : ℕ) × (mapped (view k c.c_dev) c.c_node.i_addr bn ≡ some nb)

pub there_same :
    (see : ℕ → List ℕ) (o : Option ℕ) (nb : ℕ)
    → o ≡ some nb
    → bytes_at see o ≡ see (block_or_null o)
there_same see none nb e = cc
there_same see (some b) nb e = refl

pub no_gap :
    (k : Kernel) (c : Cinode) (n bn : ℕ)
    → HasNoGap k c n
    → bn < n
    → dir_bytes k c bn ≡ dir_block k c bn
no_gap k c n bn h p =
    let (nb, e) = h bn p in
    there_same (view k c.c_dev) (mapped (view k c.c_dev) c.c_node.i_addr bn) nb e

-- Whether entry `e` bears the name, and the inode number in it. A block has 32 entries.
abbrev pub is_named : List ℕ → (ℕ → List ℕ) → ℕ → Bool
is_named name blocks e =
    not (namecomp name (take 14 (drop (16 * (e % 32) + 2) (blocks (e / 32)))) == 0)

abbrev pub number : (ℕ → List ℕ) → ℕ → ℕ
number blocks e = word_at (blocks (e / 32)) (8 * (e % 32))

-- The blocks of a directory, the last of which may be begun only.
abbrev pub block_count : Cinode → ℕ
block_count c =
    let size = c.c_node.i_size in if size.o_offset == 0 then size.o_blkno else add16 size.o_blkno 1

abbrev pub bears : List ℕ → List ℕ → ℕ → Bool
bears name bytes j = not (namecomp name (take 14 (drop (16 * j + 2) bytes)) == 0)

pub find_entry_first :
    (name bytes : List ℕ) (j n m : ℕ)
    → j ≤ m
    → m < j + n
    → bears name bytes m ≡ true
    → ((i : ℕ) → j ≤ i → i < m → bears name bytes i ≡ false)
    → find_entry name bytes j n ≡ some (word_at bytes (8 * m))
unfolding find_entry
find_entry_first name bytes j zero m le lt here before = absurd (omega arith)
find_entry_first name bytes j (suc n) m le lt here before = elim (Bool-cases (j == m)) [
  | inl e ↦ let z : j ≡ m = ground arith in rw (z, here) refl
  | inr e ↦
      let ne : j ≢ m = ground arith in
      rw (before j (omega arith) (omega arith)) (
        find_entry_first name bytes (j + 1) n m (omega arith) (omega arith) here
          (λ i p q. before i (omega arith) q))
]

pub find_entry-none :
    (name bytes : List ℕ) (j n : ℕ)
    → ((i : ℕ) → j ≤ i → i < j + n → bears name bytes i ≡ false)
    → find_entry name bytes j n ≡ none
unfolding find_entry
find_entry-none name bytes j zero h = refl
find_entry-none name bytes j (suc n) h =
    rw (h j (omega arith) (omega arith))
      (find_entry-none name bytes (j + 1) n (λ i p q. h i (omega arith) (omega arith)))

-- A block of the directory is read, and `g` goes on with it.
pub block_read :
    {A : Type 0} (g : List ℕ → M A) (k : Kernel) (wd bn : ℕ) (c : Cinode)
    → get_elem? k.i_tab wd ≡ some c
    → (getmode c == f_bdev) ≡ false
    → Quiet k c.c_dev
    → (k' : Kernel) × Undisturbed k k'
      × ((bmap wd bn 1 >>= (λ nb. read_block c.c_dev nb >>= g)) k ≡ g (dir_block k c bn) k')
block_read g k wd bn c h kind quiet =
    let first = bmap_reads k wd bn c h quiet in
    let u = first.post.1 in
    let nb = first.value in
    let second = read_block-sees first.state c.c_dev nb (u.ready c.c_dev nb (quiet nb)) in
    let is : second.value ≡ dir_block k c bn =
      second.post.0
      ∙ u.seen c.c_dev nb (quiet 0).device
      ∙ ap (view k c.c_dev) (first.post.0 ∙ rw kind refl) in
    (second.state, Undisturbed-then u second.post.1, rw (first.result, second.result, is) refl)

-- What the directory holds looks the same afterwards.
pub blocks_same :
    (k k' : Kernel) (c : Cinode)
    → Undisturbed k k'
    → c.c_dev < ndevs
    → dir_block k' c ≡ dir_block k c
blocks_same k k' c u p =
    let e : view k' c.c_dev ≡ view k c.c_dev = fun_ext (λ n. u.seen c.c_dev n p) in
    ap (λ see. λ (bn : ℕ). see (block_or_null (mapped see c.c_node.i_addr bn))) e

pub in_block :
    (name : List ℕ) (blocks : ℕ → List ℕ) (blk i : ℕ)
    → i < 32
    → is_named name blocks (32 * blk + i) ≡ bears name (blocks blk) i
in_block name blocks blk i small =
    let q : (32 * blk + i) / 32 ≡ blk = omega arith in
    let r : (32 * blk + i) % 32 ≡ i = omega arith in rw (q, r) refl

pub named_same :
    (name : List ℕ) (e : ℕ) (f g : ℕ → List ℕ)
    → f (e / 32) ≡ g (e / 32)
    → is_named name f e ≡ is_named name g e
named_same name e f g h =
    ap (λ b. not (namecomp name (take 14 (drop (16 * (e % 32) + 2) b)) == 0)) h
