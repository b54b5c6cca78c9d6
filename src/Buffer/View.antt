-- ===== src/Buffer/View.antt =====
-- What a block of a device holds for the kernel of uzi-nes-port: the contents of the buffer named
-- after it, if there is one, and else what the device holds (drivers/devio.c).
use uzi_build.Prelude.{
  ℕ, zero, suc, ◌<◌, ◌≡◌, refl, ◌≢◌, false, List, [], ◌∷◌, none, some, arith, if◌then◌else◌,
  get_elem?, set,
}
use uzi_build.Kernel.{Kernel, Blkbuf}
use uzi_build.Buffer.{ndevs, holds, bfind}

abbrev pub Disk : Type 0
Disk = ℕ → ℕ → List ℕ

abbrev pub lookup : Disk → List Blkbuf → ℕ → ℕ → List ℕ
lookup disk [] d n = disk d n
lookup disk (b ∷ bs) d n = if holds d n b then b.bf_data else lookup disk bs d n

abbrev pub view : Kernel → ℕ → ℕ → List ℕ
view k = lookup k.disk k.bufpool

-- A buffer that is neither dirty nor in a caller's hands holds what the device holds, a dirty one is
-- named after a device, and the dirty flag is a union of the values 1 and 2.
pub record IsSound (disk : Disk) (b : Blkbuf) : Type 0 where
  pub agrees :
      b.bf_dirty ≡ 0 → b.bf_busy ≡ 0 → b.bf_dev < ndevs → b.bf_data ≡ disk b.bf_dev b.bf_blk
  pub owned : b.bf_dirty ≢ 0 → b.bf_dev < ndevs
  pub flag : b.bf_dirty < 4

-- No two buffers are named after one block, and each is sound.
abbrev pub IsCoherent : Disk → List Blkbuf → Type 0
IsCoherent disk [] = Unit {0}
IsCoherent disk (b ∷ bs) =
    IsSound disk b × (b.bf_dev < ndevs → bfind b.bf_dev b.bf_blk bs ≡ none) × IsCoherent disk bs

pub bfind-cons_none :
    (d n : ℕ) (b : Blkbuf) (bs : List Blkbuf)
    → bfind d n (b ∷ bs) ≡ none
    → (holds d n b ≡ false) × (bfind d n bs ≡ none)
unfolding bfind
bfind-cons_none d n b bs h = ground arith

-- A block that is in no buffer is seen on the device.
pub lookup_unfound :
    (disk : Disk) (bs : List Blkbuf) (d n : ℕ) → bfind d n bs ≡ none → lookup disk bs d n ≡ disk d n
lookup_unfound disk [] d n h = refl
lookup_unfound disk (b ∷ bs) d n h =
    let (other, rest) = bfind-cons_none d n b bs h in rw other (lookup_unfound disk bs d n rest)

-- Replacing a buffer by one of the same name and contents changes nothing that is seen.
pub lookup-set_same :
    (disk : Disk) (bs : List Blkbuf) (i : ℕ) (b b' : Blkbuf) (d n : ℕ)
    → get_elem? bs i ≡ some b
    → b'.bf_dev ≡ b.bf_dev
    → b'.bf_blk ≡ b.bf_blk
    → b'.bf_data ≡ b.bf_data
    → lookup disk (set bs i b') d n ≡ lookup disk bs d n
lookup-set_same disk [] i b b' d n h e₁ e₂ e₃ = refl
lookup-set_same disk (x ∷ bs) zero b b' d n h e₁ e₂ e₃ = ground arith
lookup-set_same disk (x ∷ bs) (suc i) b b' d n h e₁ e₂ e₃ =
    ground (arith, lookup-set_same disk bs i b b' d n h e₁ e₂ e₃)

pub bfind-set_same :
    (bs : List Blkbuf) (i : ℕ) (b b' : Blkbuf) (d n : ℕ)
    → get_elem? bs i ≡ some b
    → b'.bf_dev ≡ b.bf_dev
    → b'.bf_blk ≡ b.bf_blk
    → bfind d n (set bs i b') ≡ bfind d n bs
unfolding bfind
bfind-set_same [] i b b' d n h e₁ e₂ = refl
bfind-set_same (x ∷ bs) zero b b' d n h e₁ e₂ = ground arith
bfind-set_same (x ∷ bs) (suc i) b b' d n h e₁ e₂ =
    ground (arith, bfind-set_same bs i b b' d n h e₁ e₂)

pub set_same-IsCoherent :
    (disk : Disk) (bs : List Blkbuf) (i : ℕ) (b b' : Blkbuf)
    → get_elem? bs i ≡ some b
    → b'.bf_dev ≡ b.bf_dev
    → b'.bf_blk ≡ b.bf_blk
    → IsSound disk b'
    → IsCoherent disk bs
    → IsCoherent disk (set bs i b')
set_same-IsCoherent disk [] i b b' h e₁ e₂ s c = tt
set_same-IsCoherent disk (x ∷ bs) zero b b' h e₁ e₂ s (sx, apart, c) =
    (s, λ p. ground (arith, apart), c)
set_same-IsCoherent disk (x ∷ bs) (suc i) b b' h e₁ e₂ s (sx, apart, c) = (
  sx,
  λ p. rw (bfind-set_same bs i b b' x.bf_dev x.bf_blk h e₁ e₂) (apart p),
  set_same-IsCoherent disk bs i b b' h e₁ e₂ s c,
)
