-- ===== src/Mkfs/Volume.antt =====
-- The image that `mkfs` of uzi-nes-utils/fs/mkfs.c writes, and the kernel of uzi-nes-port that mounts it.
use uzi_build.Prelude.{
  ℕ, zero, suc, ◌+◌, ◌-◌, ◌<◌, ◌≤◌, ◌≡◌, refl, ◌∙◌, inl, inr, List, [], ◌∷◌, some, arith, ◌==◌, set,
  replicate, length-set, Bool-cases, Option, get_elem?,
}
use uzi_build.Kernel.{Kernel, Filesys, ok}
use uzi_build.Kernel.Returns.{Returns}
use uzi_build.Format.{nfree_max}
use uzi_build.Format.Words.{AllWords}
use uzi_build.Format.Super.{IsSuper}
use uzi_build.Buffer.View.{view}
use uzi_build.FreeList.{smounted}
use uzi_build.FreeList.Chain.{AllWithin}
use uzi_build.FreeList.Super.{Quiet, HasFree}
use uzi_build.Devices.{Drivers}
use uzi_build.Calls.Mounts.{fmount}
use uzi_build.Calls.Mounts.Mounting.{IsVolume, InTable, fmount-HasFree}
use uzi_build.Mkfs.{Image, free_block, free_blocks, new_super, mkfs}
use uzi_build.Mkfs.Chain.{blank, blocks-Made, AllWithin-weaken, range, mkfs-IsChain}

AllWords-set : (xs : List ℕ) (i v : ℕ) → AllWords xs → v < 65536 → AllWords (set xs i v)
AllWords-set [] i v a p = a
AllWords-set (x ∷ xs) zero v (q, a) p = (p, a)
AllWords-set (x ∷ xs) (suc i) v (q, a) p = (q, AllWords-set xs i v a p)

AllWords-replicate : (n v : ℕ) → v < 65536 → AllWords (replicate n v)
AllWords-replicate zero v p = tt
AllWords-replicate (suc n) v p = (p, AllWords-replicate n v p)

-- What the loop that builds the free list keeps.
record Kept (fsize isize : ℕ) (f : Filesys) : Type 0 where
  sound : IsSuper 0 f
  few : f.s_nfree ≤ 50
  mounted : f.s_mounted ≡ smounted
  first : f.s_isize ≡ isize
  last : f.s_fsize ≡ fsize

freed :
    (fsize isize j n t : ℕ) (f : Filesys)
    → Kept fsize isize f
    → j < 65536
    → n < 50
    → t < 65536
    → Kept fsize isize (record f { s_tfree = t; s_free = set f.s_free n j; s_nfree = n + 1 })
freed fsize isize j n t f v p q r =
    let s = v.sound in
    record {
      sound = record {
        mounted = s.mounted;
        isize = s.isize;
        fsize = s.fsize;
        nfree = omega arith;
        free_room = length-set f.s_free n j ∙ s.free_room;
        free_words = AllWords-set f.s_free n j s.free_words p;
        ninode = s.ninode;
        inode_room = s.inode_room;
        inode_words = s.inode_words;
        fmod = s.fmod;
        time = s.time;
        date = s.date;
        tfree = r;
        tinode = s.tinode;
        mntpt = s.mntpt;
      };
      few = omega arith;
      mounted = v.mounted;
      first = v.first;
      last = v.last;
    }

free_block-Kept :
    (behind : List ℕ) (fsize isize j : ℕ) (m : Image)
    → Kept fsize isize m.super
    → j < 65536
    → Kept fsize isize (free_block behind j m).super
unfolding free_block
free_block-Kept behind fsize isize j m v p =
    let few = v.few in
    elim (Bool-cases (m.super.s_nfree == nfree_max)) [
      | inl e ↦ rw e (freed fsize isize j 0 _ m.super v p (omega arith) (omega arith))
      | inr e ↦
          rw e (freed fsize isize j m.super.s_nfree _ m.super v p (ground arith) (omega arith))
    ]

free_blocks-Kept :
    (behind : List ℕ) (fsize isize start n : ℕ) (m : Image)
    → Kept fsize isize m.super
    → start + n < 65536
    → Kept fsize isize (free_blocks behind start n m).super
unfolding free_blocks
free_blocks-Kept behind fsize isize start zero m v p = v
free_blocks-Kept behind fsize isize start (suc n) m v p =
    free_blocks-Kept behind fsize isize start n (free_block behind (start + suc n) m)
      (free_block-Kept behind fsize isize (start + suc n) m v p) (omega arith)

blank-Kept :
    (fsize isize : ℕ) → isize < fsize → fsize < 65536 → Kept fsize isize (blank fsize isize).super
unfolding new_super
blank-Kept fsize isize p q = record {
  sound = record {
    mounted = omega arith;
    isize = omega arith;
    fsize = q;
    nfree = omega arith;
    free_room = refl;
    free_words = AllWords-replicate 50 0 (omega arith);
    ninode = omega arith;
    inode_room = refl;
    inode_words = AllWords-replicate 50 0 (omega arith);
    fmod = omega arith;
    time = omega arith;
    date = omega arith;
    tfree = omega arith;
    tinode = omega arith;
    mntpt = omega arith;
  };
  few = omega arith;
  mounted = refl;
  first = refl;
  last = refl;
}

within_sizes :
    (bs : List ℕ) (isize fsize lo hi : ℕ)
    → lo ≡ isize
    → hi ≡ fsize
    → AllWithin isize fsize bs
    → AllWithin lo hi bs
within_sizes bs isize fsize lo hi p q w = rw (p, q) w

-- The image is a volume with every block behind the inodes and the root directory free.
mkfs-IsVolume :
    (behind : List ℕ) (fsize isize : ℕ)
    → isize < fsize
    → 2 ≤ isize
    → fsize < 65536
    → IsVolume
        (mkfs behind fsize isize).blocks
        (mkfs behind fsize isize).super
        (range (suc isize) (fsize - 1 - isize))
unfolding mkfs
mkfs-IsVolume behind fsize isize p q r =
    let n = fsize - 1 - isize in
    let w = blocks-Made behind fsize isize p r in
    let v =
      free_blocks-Kept behind fsize isize isize n (blank fsize isize) (blank-Kept fsize isize p r)
        (omega arith) in
    let first = v.first in
    let last = v.last in
    record {
      at = 0;
      behind = [];
      beyond = behind;
      block = refl;
      sound = v.sound;
      mounted = v.mounted;
      sizes = omega arith;
      within = within_sizes _ isize fsize _ _ first last (AllWithin-weaken isize fsize _ w.within);
      distinct = w.distinct;
      count = w.count;
      few = w.few;
      chain = (mkfs-IsChain behind fsize isize p q r).0;
    }

-- A device that holds the image made by `mkfs` for `fsize` blocks, with inodes up to block `isize` - 1
-- and the root directory in block `isize`, is one that the kernel mounts: where it answers to its
-- opening and can be read, `fmount` returns 0, and all blocks behind `isize`, in ascending order, are
-- then the free blocks that `blk_alloc` hands out.
pub fmount-mkfs :
    (dev_tab : Drivers) (k : Kernel) (dev : ℕ) (ino : Option ℕ) (old : Filesys) (behind : List ℕ)
    (fsize isize : ℕ)
    → isize < fsize
    → 2 ≤ isize
    → fsize < 65536
    → dev_tab.dev_open dev k ≡ ok 0 k
    → get_elem? k.fs_tab dev ≡ some old
    → Quiet k dev
    → InTable k ino
    → view k dev ≡ (mkfs behind fsize isize).blocks
    → Returns (fmount dev_tab dev ino k) (λ r k'.
      (r ≡ 0)
      × (get_elem? k'.fs_tab dev
          ≡ some (record ((mkfs behind fsize isize).super) { s_mntpt = ino }))
      × HasFree k' dev (range (suc isize) (fsize - 1 - isize))
      × Quiet k' dev)
fmount-mkfs dev_tab k dev ino old behind fsize isize p q r opens h quiet there image =
    fmount-HasFree dev_tab k dev ino (mkfs behind fsize isize).super old
      (range (suc isize) (fsize - 1 - isize)) opens h quiet there
      (rw image (mkfs-IsVolume behind fsize isize p q r))
