-- ===== src/FreeList/Alloc.antt =====
-- `blk_alloc` of uzi-nes-port/fs/filesys.c takes the first block of the sequence of free blocks, whether
-- the superblock lists it or it holds the list itself.
use uzi_build.Prelude.{
  ℕ, zero, suc, ◌-◌, ◌<◌, ◌≤◌, ◌≡◌, refl, ◌≢◌, ap, inl, inr, List, [], ◌∷◌, arith, length, get_or,
  set-set, ltb, ◌==◌, ◌||◌, false, true, Bool-cases,
}
use uzi_build.Kernel.{Kernel, Filesys, ok, set_error}
use uzi_build.Kernel.Returns
use uzi_build.Kernel.Returns.{Returns}
use uzi_build.Kernel.Bytes.{word_at, words}
use uzi_build.Format.{nfree_max}
use uzi_build.Buffer.{ndevs}
use uzi_build.Buffer.View.{view}
use uzi_build.FreeList.{smounted, enospc, put_fs, draw, no_more, no_space, blk_alloc}
use uzi_build.FreeList.Chain.{IsChain, last, next, link, AllApart, IsChain-see, IsChain-pos}
use uzi_build.FreeList.Super.{
  Reached, Reached-put_fs, Reached-at, Reached-then, Quiet, HasFree, stamped, getdev-ok,
}
use uzi_build.FreeList.Claim.{Zeroed, refilled, draw-ok}

-- The first of the free blocks is the address below `s_nfree`.
IsChain-first :
    (see : ℕ → List ℕ) (n b : ℕ) (free bs : List ℕ)
    → IsChain see n free (b ∷ bs)
    → (get_or free (n - 1) 0 ≡ b) × (b ≢ 0)
IsChain-first see n b free bs (next {n = m} e ne rest) =
    let same : suc (suc m) - 1 ≡ suc m = omega arith in (rw same e, ne)
IsChain-first see n b free bs (link e ne le rest) = (e, ne)

length-words : (bytes : List ℕ) (i n : ℕ) → length (words bytes i n) ≡ n
length-words bytes i zero = refl
length-words bytes i (suc n) = ap suc (length-words bytes (suc i) n)

IsChain-rest :
    (see : ℕ → List ℕ) (n b : ℕ) (free bs : List ℕ)
    → IsChain see n free (b ∷ bs)
    → ((n - 1 == 0) ≡ true
        → (word_at (see b) 0 ≤ nfree_max)
          × IsChain see (word_at (see b) 0) (words (see b) 1 nfree_max) bs)
      × ((n - 1 == 0) ≡ false → IsChain see (n - 1) free bs)
IsChain-rest see n b free bs (next {n = m} e ne rest) =
    let same : suc (suc m) - 1 ≡ suc m = omega arith in (λ q. ground arith, λ q. rw same rest)
IsChain-rest see n b free bs (link e ne le rest) = (λ q. (le, rest), λ q. ground arith)

-- The chain behind the first block is that of the superblock after `draw`.
IsChain-refilled :
    (see see' : ℕ → List ℕ) (b : ℕ) (f : Filesys) (bs : List ℕ)
    → ((x : ℕ) → b ≢ x → see' x ≡ see x)
    → AllApart b bs
    → f.s_nfree ≤ nfree_max
    → length f.s_free ≡ nfree_max
    → IsChain see f.s_nfree f.s_free (b ∷ bs)
    → IsChain see' (refilled see b f).s_nfree (refilled see b f).s_free bs
      × ((refilled see b f).s_nfree ≤ nfree_max)
      × (length (refilled see b f).s_free ≡ nfree_max)
IsChain-refilled see see' b f bs same apart few room c =
    let (linked, listed) = IsChain-rest see f.s_nfree b f.s_free bs c in
    elim (Bool-cases (f.s_nfree - 1 == 0)) [
      | inr q ↦ rw q (
        IsChain-see see see' b (f.s_nfree - 1) f.s_free bs same apart (listed q),
        omega arith,
        room,
      )
      | inl q ↦ rw q (
        IsChain-see see see' b (word_at (see b) 0) (words (see b) 1 nfree_max) bs same apart
            (linked q).1,
        (linked q).0,
        length-words (see b) 1 nfree_max,
      )
    ]

-- What `draw` leaves holds the remaining blocks.
drawn :
    (k k' : Kernel) (dev b : ℕ) (bs : List ℕ) (free : HasFree k dev (b ∷ bs))
    → dev < ndevs
    → Reached
        (put_fs dev (stamped k free.fs) k)
        dev
        (record (refilled (view k dev) b (stamped k free.fs)) { s_tfree = free.fs.s_tfree - 1 })
        k'
    → Zeroed (put_fs dev (stamped k free.fs) k) dev b k'
    → HasFree k' dev bs
drawn k k' dev b bs free p s z =
    let h = stamped k free.fs in
    let same = λ (x : ℕ) (ne : b ≢ x). z.seen_others dev x p (ground arith) in
    let (chain, few, room) =
      IsChain-refilled (view k dev) (view k' dev) b h bs same free.distinct.0 free.few free.room
        free.chain in
    record {
      fs = record (refilled (view k dev) b h) { s_tfree = free.fs.s_tfree - 1 };
      at = Reached-at s (Reached-at (Reached-put_fs k dev h) free.at);
      mounted = ground (arith, free.mounted);
      within = ground (arith, free.within);
      size = ground (arith, free.size);
      distinct = free.distinct.1;
      count = omega (arith, free.count);
      room = room;
      few = few;
      chain = chain;
    }

-- On a mounted device whose free blocks are `b` and then `bs`, and of which every block can be read,
-- `blk_alloc` returns `b`: it is zero, the free blocks are `bs`, every other block looks as before, no
-- table but the superblock has changed, and the device can still be read.
pub blk_alloc-takes :
    (k : Kernel) (dev b : ℕ) (bs : List ℕ)
    → HasFree k dev (b ∷ bs)
    → Quiet k dev
    → Returns (blk_alloc dev k) (λ r k'.
      (r ≡ b)
      × HasFree k' dev bs
      × Zeroed k dev b k'
      × Quiet k' dev
      × ((f : Filesys) × Reached k dev f k'))
unfolding blk_alloc
blk_alloc-takes k dev b bs free quiet =
    let p = (quiet 0).device in
    let h = stamped k free.fs in
    let r = Reached-put_fs k dev h in
    let at = Reached-at r free.at in
    let good : (free.fs.s_mounted == smounted) ≡ true = ground arith in
    let (first, ne) = IsChain-first (view k dev) free.fs.s_nfree b free.fs.s_free bs free.chain in
    let pos = IsChain-pos (view k dev) free.fs.s_nfree free.fs.s_free (b ∷ bs) free.chain in
    let full : (free.fs.s_nfree == 0 || ltb nfree_max free.fs.s_nfree) ≡ false =
      ground (arith, free.few) in
    rw (getdev-ok k dev free.fs free.at free.mounted p, at, good, full)
      (Returns.weaken
        (draw-ok (put_fs dev h k) dev b h at free.mounted free.within.0 free.within.1
          (ground (arith, free.count)) first ne (r.ready dev b (quiet b)))
        λ v k' (e, s, z). (
          e,
          drawn k k' dev b bs free p s z,
          record { zero_block = z.zero_block; seen_others = z.seen_others },
          λ n. s.ready dev n (r.ready dev n (quiet n)),
          (_, Reached-then r s),
        ))

IsChain-end :
    (see : ℕ → List ℕ) (n : ℕ) (free : List ℕ)
    → IsChain see n free []
    → (n ≡ 1) × (get_or free 0 0 ≡ 0)
IsChain-end see n free (last e) = (refl, e)

-- On a mounted device with no free blocks, `blk_alloc` returns 0 with error ENOSPC, and nothing but the
-- superblock's time and modified flag has changed besides the error number.
pub blk_alloc-none :
    (k : Kernel) (dev : ℕ) (free : HasFree k dev [])
    → dev < ndevs
    → blk_alloc dev k ≡ ok 0 (set_error enospc (put_fs dev (stamped k free.fs) k))
unfolding blk_alloc draw no_more no_space
blk_alloc-none k dev free p =
    let h = stamped k free.fs in
    let at = Reached-at (Reached-put_fs k dev h) free.at in
    let good : (free.fs.s_mounted == smounted) ≡ true = ground arith in
    let (one, bottom) = IsChain-end (view k dev) free.fs.s_nfree free.fs.s_free free.chain in
    let full : (free.fs.s_nfree == 0 || ltb nfree_max free.fs.s_nfree) ≡ false = ground arith in
    let newno : get_or free.fs.s_free (free.fs.s_nfree - 1) 0 ≡ 0 = rw one bottom in
    let empty : (free.fs.s_tfree == 0) ≡ true = ground (arith, free.count) in
    rw (
      getdev-ok k dev free.fs free.at free.mounted p,
      at,
      good,
      full,
      newno,
      empty,
      set-set,
      set-set,
    )
