-- ===== src/FreeList/Free.antt =====
-- `blk_free` of uzi-nes-port/fs/filesys.c puts a block in front of the sequence of free blocks, and
-- makes it hold the superblock's list when that is full.
use uzi_build.Prelude.{
  ℕ, ◌+◌, ◌<◌, ◌≤◌, ◌≡◌, refl, ◌≢◌, ap, ◌∙◌, inl, inr, List, ◌∷◌, some, arith, length, get_elem?,
  set, add16, leb, ◌==◌, ◌&&◌, false, true, Bool-cases, length-set,
}
use uzi_build.Kernel.{Kernel, Filesys, ok}
use uzi_build.Kernel.Returns
use uzi_build.Kernel.Returns.{Returns}
use uzi_build.Kernel.Bytes.{word_at, words}
use uzi_build.Format.{nfree_max}
use uzi_build.Format.Words.{AllWords}
use uzi_build.Buffer.{ndevs}
use uzi_build.Buffer.View.{view}
use uzi_build.Buffer.Obtain.{Ready}
use uzi_build.Buffer.Use.{rewrite_block-Rewritten}
use uzi_build.FreeList.{smounted, put_fs, spill, list_block, blk_free, free_bytes}
use uzi_build.FreeList.Chain.{IsChain, AllApart, IsChain-below}
use uzi_build.FreeList.Super.{
  Reached, Reached-put_fs, Reached-at, Reached-then, Quiet, HasFree, stamped, getdev-ok,
}
use uzi_build.FreeList.Claim.{validblk-ok}
use uzi_build.FreeList.Push.{IsChain-push, IsChain-link}
use uzi_build.FreeList.Spill.{AllWords-get_or, free_bytes-list}

-- The superblock after `blk_free`.
freed : ℕ → Filesys → Filesys
freed b f = record f {
  s_tfree = add16 f.s_tfree 1;
  s_free = set f.s_free f.s_nfree b;
  s_nfree = f.s_nfree + 1;
}

-- What `blk_free` leaves behind.
pub record Freed (k : Kernel) (dev b : ℕ) (bs : List ℕ) (k' : Kernel) : Type 0 where
  pub free : HasFree k' dev (b ∷ bs)
  pub seen_others : (d n : ℕ) → d < ndevs → (d == dev && n == b) ≡ false → view k' d n ≡ view k d n
  pub quiet : Quiet k' dev
  pub super : Filesys
  pub reached : Reached k dev super k'

list_block-ok :
    (k : Kernel) (dev b : ℕ) (f : Filesys)
    → get_elem? k.fs_tab dev ≡ some f
    → f.s_nfree < nfree_max
    → list_block dev b k ≡ ok tt (put_fs dev (freed b f) k)
unfolding list_block freed
list_block-ok k dev b f h p =
    let room : leb nfree_max f.s_nfree ≡ false = ground arith in rw (h, room)

-- With the superblock's list of length `n` in state `k₁`, `list_block` ends as wanted.
list_block-Freed :
    (k k₁ : Kernel) (dev b n : ℕ) (bs : List ℕ) (free : HasFree k dev bs)
    → Quiet k dev
    → Reached k dev (record (stamped k free.fs) { s_nfree = n }) k₁
    → ((d m : ℕ) → d < ndevs → (d == dev && m == b) ≡ false → view k₁ d m ≡ view k d m)
    → n < nfree_max
    → IsChain (view k₁ dev) (n + 1) (set free.fs.s_free n b) (b ∷ bs)
    → free.fs.s_isize ≤ b
    → b < free.fs.s_fsize
    → AllApart b bs
    → length bs < 65535
    → Returns (list_block dev b k₁) (λ r k'. Freed k dev b bs k')
unfolding freed
list_block-Freed k k₁ dev b n bs free quiet r same small chain lo hi apart fewer =
    let f = record (stamped k free.fs) { s_nfree = n } in
    let s = Reached-put_fs k₁ dev (freed b f) in
    record {
      value = tt;
      state = put_fs dev (freed b f) k₁;
      result = list_block-ok k₁ dev b f (Reached-at r free.at) small;
      post = record {
        free = record {
          fs = freed b f;
          at = Reached-at s (Reached-at r free.at);
          mounted = free.mounted;
          within = (lo, hi, free.within);
          size = free.size;
          distinct = (apart, free.distinct);
          count = omega (arith, free.count);
          room = length-set free.fs.s_free n b ∙ free.room;
          few = omega arith;
          chain = chain;
        };
        seen_others = same;
        quiet = λ m. s.ready dev m (r.ready dev m (quiet m));
        super = freed b f;
        reached = Reached-then r s;
      };
    }

-- The superblock's list has moved into the block.
spill-ok :
    (k : Kernel) (dev b : ℕ) (f : Filesys)
    → get_elem? k.fs_tab dev ≡ some f
    → Ready k dev b
    → f.s_nfree ≡ nfree_max
    → length f.s_free ≡ nfree_max
    → AllWords f.s_free
    → Returns (spill dev b k) (λ r k'.
      Reached k dev (record f { s_nfree = 0 }) k'
      × (word_at (view k' dev b) 0 ≡ nfree_max)
      × (words (view k' dev b) 1 nfree_max ≡ f.s_free)
      × ((d m : ℕ) → d < ndevs → (d == dev && m == b) ≡ false → view k' d m ≡ view k d m))
unfolding spill
spill-ok k dev b f h ready full room all =
    let bytes = free_bytes dev k in
    let (number, list) = free_bytes-list k dev f h (omega arith) room all in
    Returns.bind _
      (rewrite_block-Rewritten k dev b 1 1 (λ _. bytes) bytes ready (omega arith) (ground arith)
        (λ old q. refl))
      λ v k₁ w.
        let at : get_elem? k₁.fs_tab dev ≡ some f = rw (w.tables) h in
        let is : view k₁ dev b ≡ bytes = w.seen in
        rw at (record {
          value = tt;
          state = put_fs dev (record f { s_nfree = 0 }) k₁;
          result = refl;
          post = (
            record {
              tables = rw (w.tables);
              ready = λ d n q.
                  (Reached-put_fs k₁ dev (record f { s_nfree = 0 })).ready d n (w.ready d n q);
            },
            ap (λ l. word_at l 0) is ∙ number ∙ full,
            ap (λ l. words l 1 nfree_max) is ∙ list,
            w.seen_others,
          );
        })

-- The addresses of a full list fit in 16 bits.
full-AllWords :
    (k : Kernel) (dev : ℕ) (bs : List ℕ) (free : HasFree k dev bs)
    → free.fs.s_nfree ≡ nfree_max
    → AllWords free.fs.s_free
full-AllWords k dev bs free full = AllWords-get_or free.fs.s_free λ j p.
    let below =
      IsChain-below (view k dev) free.fs.s_nfree free.fs.s_isize free.fs.s_fsize free.fs.s_free bs
        free.chain free.within j (omega (arith, free.room)) in
    omega (arith, free.size)

-- On a mounted device with free blocks `bs`, fewer than 65535, of which every block can be read, a data
-- block `b` that is not among them is freed: the free blocks are `b` and then `bs`, every block but `b`
-- looks as before, no table but the superblock has changed, and the device can still be read.
pub blk_free-gives :
    (k : Kernel) (dev b : ℕ) (bs : List ℕ) (free : HasFree k dev bs)
    → Quiet k dev
    → b ≢ 0
    → free.fs.s_isize ≤ b
    → b < free.fs.s_fsize
    → AllApart b bs
    → length bs < 65535
    → Returns (blk_free dev b k) (λ r k'. Freed k dev b bs k')
unfolding blk_free
blk_free-gives k dev b bs free quiet ne lo hi apart fewer =
    let p = (quiet 0).device in
    let h = stamped k free.fs in
    let r = Reached-put_fs k dev h in
    let at = Reached-at r free.at in
    let some_block : (b == 0) ≡ false = ground arith in
    let good : (free.fs.s_mounted == smounted) ≡ true = ground arith in
    rw
      (
        some_block,
        getdev-ok k dev free.fs free.at free.mounted p,
        at,
        good,
        validblk-ok (put_fs dev h k) dev b h at free.mounted lo hi,
      )
      (elim (Bool-cases (free.fs.s_nfree == nfree_max)) [
        | inr e ↦
            let small : free.fs.s_nfree < nfree_max = ground (arith, free.few) in
            rw e (
              list_block-Freed k (put_fs dev h k) dev b free.fs.s_nfree bs free quiet r
                (λ d m _ _. refl) small
                (IsChain-push (view k dev) free.fs.s_nfree b free.fs.s_free bs free.chain
                  (omega (arith, free.room)) ne)
                lo hi apart fewer)
        | inl e ↦
            let full : free.fs.s_nfree ≡ nfree_max = ground arith in
            rw e (
              Returns.bind _
                (spill-ok (put_fs dev h k) dev b h at (r.ready dev b (quiet b)) full free.room
                  (full-AllWords k dev bs free full))
                λ v k₁ (s, number, list, same).
                  list_block-Freed k k₁ dev b 0 bs free quiet (Reached-then r s) same (omega arith)
                    (IsChain-link (view k dev) (view k₁ dev) b free.fs.s_free bs
                      (λ x q. same dev x p (ground arith)) apart ne (omega (arith, free.room))
                      number list (rw full at free.chain))
                    lo hi apart fewer)
      ])
