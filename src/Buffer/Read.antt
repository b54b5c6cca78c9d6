-- ===== src/Buffer/Read.antt =====
-- `bread` of uzi-nes-port/drivers/devio.c: the buffer it returns is named after the block and holds
-- its contents, and no other block looks different.
use uzi_build.Prelude.{
  ℕ, suc, ◌<◌, ◌%◌, ◌≡◌, inl, inr, true, false, List, [], ◌∷◌, some, arith, ◌==◌, leb, add16,
  replicate, if◌then◌else◌, get_elem?, set, set-set, get_elem?-set_self, Bool-cases, Option-cases,
}
use uzi_build.Kernel.{Kernel, Blkbuf, ok}
use uzi_build.Buffer.{ndevs, block_size, holds, bfind, grab, fill, bdread, put_buf}
use uzi_build.Buffer.View.{Disk, lookup}

-- What `bfind` finds is a buffer of the pool, named after the block.
pub bfind-found :
    (bs : List Blkbuf) (d n i : ℕ)
    → bfind d n bs ≡ some i
    → (b : Blkbuf) × (get_elem? bs i ≡ some b) × (holds d n b ≡ true)
unfolding bfind
bfind-found [] d n i e = cc
bfind-found (x ∷ bs) d n i e = elim (Bool-cases (holds d n x)) [
  | inl hit ↦ (x, ground arith, hit)
  | inr miss ↦ elim (Option-cases (bfind d n bs)) [
    | inl e' ↦ cc
    | inr (j, e') ↦
        let (b, h, p) = bfind-found bs d n j e' in
        let at : i ≡ suc j = ground arith in (b, rw at h, p)
  ]
]

-- The first buffer named after a block is what is seen of it.
pub lookup-bfind :
    (disk : Disk) (bs : List Blkbuf) (d n i : ℕ) (b : Blkbuf)
    → bfind d n bs ≡ some i
    → get_elem? bs i ≡ some b
    → lookup disk bs d n ≡ b.bf_data
unfolding bfind
lookup-bfind disk [] d n i b e h = cc
lookup-bfind disk (x ∷ bs) d n i b e h = elim (Bool-cases (holds d n x)) [
  | inl hit ↦ ground arith
  | inr miss ↦ elim (Option-cases (bfind d n bs)) [
    | inl e' ↦ cc
    | inr (j, e') ↦
        let at : i ≡ suc j = ground arith in
        let h' : get_elem? bs j ≡ some b = rw at at h in
        rw miss (lookup-bfind disk bs d n j b e' h')
  ]
]

-- A buffer as `bread` hands it out.
abbrev pub grabbed : ℕ → Blkbuf → Blkbuf
grabbed clock b = record b { bf_busy = 1; bf_time = add16 clock 1 }

pub grab_lem :
    (k : Kernel) (i : ℕ) (b : Blkbuf)
    → get_elem? k.bufpool i ≡ some b
    → grab i k
      ≡ ok (some i) (record k {
        bufpool = set k.bufpool i (grabbed k.bufclock b);
        bufclock = add16 k.bufclock 1;
      })
unfolding grab
grab_lem k i b h = rw h

-- The contents of a buffer that `bread` names after a block which was in no buffer.
abbrev pub loaded : Kernel → ℕ → ℕ → ℕ → Blkbuf → List ℕ
loaded k dev blk rewrite b =
    if rewrite == 0
    then k.disk dev blk
    else if rewrite == 2
    then replicate block_size 0
    else b.bf_data

abbrev pub filled : Kernel → ℕ → ℕ → ℕ → Blkbuf → Blkbuf
filled k dev blk rewrite b =
    grabbed k.bufclock
      (record b { bf_dev = dev; bf_blk = blk; bf_data = loaded k dev blk rewrite b })

bdread-ok :
    (k : Kernel) (i : ℕ) (b : Blkbuf)
    → get_elem? k.bufpool i ≡ some b
    → b.bf_dev < ndevs
    → k.fault b.bf_dev b.bf_blk ≡ false
    → bdread i k ≡ ok false (put_buf i (record b { bf_data = k.disk b.bf_dev b.bf_blk }) k)
unfolding bdread
bdread-ok k i b h p nf = let small : leb ndevs b.bf_dev ≡ false = ground arith in rw (h, small, nf)

-- Buffer `i` once it has got the block's name.
abbrev named : Kernel → ℕ → ℕ → ℕ → Blkbuf → Kernel
named k i dev blk b = put_buf i (record b { bf_dev = dev; bf_blk = blk }) k

pub fill_lem :
    (k : Kernel) (dev blk rewrite i : ℕ) (b : Blkbuf)
    → get_elem? k.bufpool i ≡ some b
    → k.fault dev blk ≡ false
    → dev < ndevs
    → fill dev blk rewrite i k
      ≡ ok (some i) (record k {
        bufpool = set k.bufpool i (filled k dev blk rewrite b);
        bufclock = add16 k.bufclock 1;
      })
unfolding fill grab
fill_lem k dev blk rewrite i b h nf p =
    let byte : dev % 256 ≡ dev = omega arith in
    let at : (v : Blkbuf) → get_elem? (set k.bufpool i v) i ≡ some v =
      λ v. get_elem?-set_self k.bufpool i b v h in
    let step =
      bdread-ok (named k i dev blk b) i (record b { bf_dev = dev; bf_blk = blk }) (at _) p nf in
    elim (Bool-cases (rewrite == 0)) [
      | inl reading ↦
          let other : (rewrite == 2) ≡ false = ground arith in
          rw (h, reading, byte, step) (simp (set-set, at, other))
      | inr writing ↦
          rw (h, writing, byte)
            (elim (Bool-cases (rewrite == 2)) [
              | inl zeroes ↦ rw zeroes (simp (at, set-set))
              | inr kept ↦ rw kept (simp (at, set-set))
            ])
    ]
