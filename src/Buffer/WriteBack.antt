-- ===== src/Buffer/WriteBack.antt =====
-- A dirty buffer written to its device, and a clean one given to another block: the two steps by which
-- `freebuf` and `bread` of uzi-nes-port/drivers/devio.c reuse a buffer.
use uzi_build.Prelude.{
  ℕ, zero, suc, ◌<◌, ◌≡◌, refl, false, List, [], ◌∷◌, none, some, arith, ◌==◌, ◌&&◌, if◌then◌else◌,
  get_elem?, set,
}
use native.Mathlib.Decide.{dec_lt}
use uzi_build.Kernel.{Blkbuf}
use uzi_build.Buffer.{ndevs, holds, bfind, put_block}
use uzi_build.Buffer.View.{
  Disk, lookup, IsSound, IsCoherent, lookup_unfound, bfind-set_same, bfind-cons_none,
}

-- A buffer in a pool that holds no buffer of the block is named after another.
pub holds_unfound :
    (bs : List Blkbuf) (i d n : ℕ) (b : Blkbuf)
    → get_elem? bs i ≡ some b
    → bfind d n bs ≡ none
    → holds d n b ≡ false
holds_unfound [] i d n b h e = cc
holds_unfound (x ∷ bs) zero d n b h e = ground (arith, bfind-cons_none d n x bs)
holds_unfound (x ∷ bs) (suc i) d n b h e = holds_unfound bs i d n b h (bfind-cons_none d n x bs e).1

pub lookup-put_block_ne :
    (disk : Disk) (bs : List Blkbuf) (dev blk d n : ℕ) (bytes : List ℕ)
    → (d == dev && n == blk) ≡ false
    → lookup (put_block disk dev blk bytes) bs d n ≡ lookup disk bs d n
lookup-put_block_ne disk [] dev blk d n bytes h = rw h
lookup-put_block_ne disk (x ∷ bs) dev blk d n bytes h =
    ground (arith, lookup-put_block_ne disk bs dev blk d n bytes h)

-- Writing a buffer to its own block changes nothing that is seen.
pub lookup-put_block :
    (disk : Disk) (bs : List Blkbuf) (i d n : ℕ) (b : Blkbuf)
    → get_elem? bs i ≡ some b
    → lookup (put_block disk b.bf_dev b.bf_blk b.bf_data) bs d n ≡ lookup disk bs d n
lookup-put_block disk [] i d n b h = cc
lookup-put_block disk (x ∷ bs) zero d n b h =
    ground (arith, lookup-put_block_ne disk bs b.bf_dev b.bf_blk d n b.bf_data)
lookup-put_block disk (x ∷ bs) (suc i) d n b h = ground (arith, lookup-put_block disk bs i d n b h)

put_block-IsSound :
    (disk : Disk) (dev blk : ℕ) (bytes : List ℕ) (b : Blkbuf)
    → holds dev blk b ≡ false
    → IsSound disk b
    → IsSound (put_block disk dev blk bytes) b
put_block-IsSound disk dev blk bytes b other s = record {
  agrees = λ p q r. ground (arith, s.agrees p q r);
  owned = s.owned;
  flag = s.flag;
}

pub put_block-IsCoherent :
    (disk : Disk) (bs : List Blkbuf) (dev blk : ℕ) (bytes : List ℕ)
    → bfind dev blk bs ≡ none
    → IsCoherent disk bs
    → IsCoherent (put_block disk dev blk bytes) bs
put_block-IsCoherent disk [] dev blk bytes h c = tt
put_block-IsCoherent disk (x ∷ bs) dev blk bytes h (s, apart, c) =
    let (other, rest) = bfind-cons_none dev blk x bs h in
    (
      put_block-IsSound disk dev blk bytes x other s,
      apart,
      put_block-IsCoherent disk bs dev blk bytes rest c,
    )

-- A buffer in the state in which `freebuf` leaves it: written and no longer dirty.
abbrev pub cleaned : Blkbuf → Blkbuf
cleaned b = record b { bf_dirty = 0 }

-- Two buffers at different places of a coherent pool are named after different blocks.
holds-apart :
    (x b : Blkbuf) (bs : List Blkbuf) (i : ℕ)
    → get_elem? bs i ≡ some b
    → b.bf_dev < ndevs
    → (x.bf_dev < ndevs → bfind x.bf_dev x.bf_blk bs ≡ none)
    → holds b.bf_dev b.bf_blk x ≡ false
holds-apart x b bs i h p apart = elim (dec_lt x.bf_dev ndevs) [
  | yes q ↦ ground (arith, holds_unfound bs i x.bf_dev x.bf_blk b h (apart q))
  | no q ↦ ground arith
]

bfind_unfound :
    (bs : List Blkbuf) (i d n : ℕ) (b : Blkbuf)
    → bfind d n bs ≡ none
    → holds d n b ≡ false
    → bfind d n (set bs i b) ≡ none
unfolding bfind
bfind_unfound [] i d n b h e = refl
bfind_unfound (x ∷ bs) zero d n b h e =
    let (other, rest) = bfind-cons_none d n x bs h in rw (e, rest)
bfind_unfound (x ∷ bs) (suc i) d n b h e =
    let (other, rest) = bfind-cons_none d n x bs h in rw (other, bfind_unfound bs i d n b rest e)

pub write_back-IsCoherent :
    (disk : Disk) (bs : List Blkbuf) (i : ℕ) (b : Blkbuf)
    → get_elem? bs i ≡ some b
    → b.bf_dev < ndevs
    → IsCoherent disk bs
    → IsCoherent (put_block disk b.bf_dev b.bf_blk b.bf_data) (set bs i (cleaned b))
write_back-IsCoherent disk [] i b h p c = tt
write_back-IsCoherent disk (x ∷ bs) zero b h p (s, apart, c) =
    let e : x ≡ b = cc in
    let alone : bfind b.bf_dev b.bf_blk bs ≡ none = rw (← e) (apart (rw e p)) in
    (
      record { agrees = λ q r t. ground arith; owned = λ q. absurd (q refl); flag = omega arith },
      λ q. alone,
      put_block-IsCoherent disk bs b.bf_dev b.bf_blk b.bf_data alone c,
    )
write_back-IsCoherent disk (x ∷ bs) (suc i) b h p (s, apart, c) = (
  put_block-IsSound disk b.bf_dev b.bf_blk b.bf_data x (holds-apart x b bs i h p apart) s,
  λ q. rw (bfind-set_same bs i b (cleaned b) x.bf_dev x.bf_blk h refl refl) (apart q),
  write_back-IsCoherent disk bs i b h p c,
)

-- What is seen after the clean buffer `i` is given to a block that was in no buffer.
pub lookup-rename :
    (disk : Disk) (bs : List Blkbuf) (i d n : ℕ) (b b' : Blkbuf)
    → get_elem? bs i ≡ some b
    → b.bf_dirty ≡ 0
    → b.bf_busy ≡ 0
    → IsCoherent disk bs
    → bfind b'.bf_dev b'.bf_blk bs ≡ none
    → d < ndevs
    → lookup disk (set bs i b') d n ≡ (if holds d n b' then b'.bf_data else lookup disk bs d n)
lookup-rename disk [] i d n b b' h e idle c new p = cc
lookup-rename disk (x ∷ bs) zero d n b b' h e idle (s, apart, c) new p =
    ground (arith, s.agrees, apart, lookup_unfound disk bs d n)
lookup-rename disk (x ∷ bs) (suc i) d n b b' h e idle (s, apart, c) new p =
    let (other, rest) = bfind-cons_none b'.bf_dev b'.bf_blk x bs new in
    ground (arith, lookup-rename disk bs i d n b b' h e idle c rest p)

pub rename-IsCoherent :
    (disk : Disk) (bs : List Blkbuf) (i : ℕ) (b b' : Blkbuf)
    → get_elem? bs i ≡ some b
    → IsCoherent disk bs
    → bfind b'.bf_dev b'.bf_blk bs ≡ none
    → IsSound disk b'
    → IsCoherent disk (set bs i b')
rename-IsCoherent disk [] i b b' h c new s' = tt
rename-IsCoherent disk (x ∷ bs) zero b b' h (s, apart, c) new s' =
    (s', λ p. (bfind-cons_none b'.bf_dev b'.bf_blk x bs new).1, c)
rename-IsCoherent disk (x ∷ bs) (suc i) b b' h (s, apart, c) new s' =
    let (other, rest) = bfind-cons_none b'.bf_dev b'.bf_blk x bs new in
    (
      s,
      λ p. bfind_unfound bs i x.bf_dev x.bf_blk b' (apart p) (ground arith),
      rename-IsCoherent disk bs i b b' h c rest s',
    )
