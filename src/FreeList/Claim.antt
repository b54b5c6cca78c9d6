-- ===== src/FreeList/Claim.antt =====
-- The steps of `blk_alloc` of uzi-nes-port/fs/filesys.c after its guards: `validblk`, `refill`,
-- `claim_block` and `draw`.
use uzi_build.Prelude.{
  ℕ, ◌-◌, ◌<◌, ◌≤◌, ◌≡◌, refl, ◌≢◌, sym, ◌∙◌, inl, inr, List, some, arith, get_elem?, get_or,
  replicate, leb, ltb, ◌==◌, ◌&&◌, ◌||◌, false, Bool-cases, if◌then◌else◌,
}
use uzi_build.Kernel.{Kernel, Filesys, ok}
use uzi_build.Kernel.Returns
use uzi_build.Kernel.Returns.{Returns}
use uzi_build.Kernel.Bytes.{word_at, words}
use uzi_build.Format.{nfree_max}
use uzi_build.Buffer.{ndevs, block_size}
use uzi_build.Buffer.View.{view}
use uzi_build.Buffer.Obtain.{Ready}
use uzi_build.Buffer.Use.{Undisturbed, read_block-sees, rewrite_block-Rewritten}
use uzi_build.FreeList.{smounted, put_fs, validblk, refill, claim_block, draw}
use uzi_build.FreeList.Super.{Reached, Reached-put_fs, Reached-at, Reached-then, Reached-Rewritten}

-- A block of zeros.
abbrev pub zeros : List ℕ
zeros = replicate block_size 0

pub validblk-ok :
    (k : Kernel) (dev b : ℕ) (f : Filesys)
    → get_elem? k.fs_tab dev ≡ some f
    → f.s_mounted ≡ smounted
    → f.s_isize ≤ b
    → b < f.s_fsize
    → validblk dev b k ≡ ok tt k
unfolding validblk
validblk-ok k dev b f h m lo hi =
    let is : (f.s_mounted == 0) ≡ false = ground arith in
    let valid : (ltb b f.s_isize || leb f.s_fsize b) ≡ false = ground arith in rw (h, is, valid)

-- Block `b` is zero, and the other blocks of all devices look as they did.
pub record Zeroed (k : Kernel) (dev b : ℕ) (k' : Kernel) : Type 0 where
  pub zero_block : view k' dev b ≡ zeros
  pub seen_others : (d n : ℕ) → d < ndevs → (d == dev && n == b) ≡ false → view k' d n ≡ view k d n

claim_block-ok :
    (k : Kernel) (dev b : ℕ) (f : Filesys)
    → get_elem? k.fs_tab dev ≡ some f
    → f.s_mounted ≡ smounted
    → f.s_isize ≤ b
    → b < f.s_fsize
    → f.s_tfree ≢ 0
    → Ready k dev b
    → Returns (claim_block dev b k) (λ r k'.
      (r ≡ b) × Reached k dev (record f { s_tfree = f.s_tfree - 1 }) k' × Zeroed k dev b k')
unfolding claim_block
claim_block-ok k dev b f h m lo hi some_left ready =
    let more : (f.s_tfree == 0) ≡ false = ground arith in
    let g = record f { s_tfree = f.s_tfree - 1 } in
    let r = Reached-put_fs k dev g in
    rw (validblk-ok k dev b f h m lo hi, h, more)
      (Returns.bind _
        (rewrite_block-Rewritten (put_fs dev g k) dev b 2 1 (λ _. zeros) zeros (r.ready dev b ready)
          (omega arith) (ground arith) (λ old q. refl))
        λ v k' w. record {
          value = b;
          state = k';
          result = refl;
          post = (
            refl,
            Reached-Rewritten r w,
            record { zero_block = w.seen; seen_others = w.seen_others },
          );
        })

-- The superblock after `refill` and `draw` have moved it.
abbrev pub refilled : (ℕ → List ℕ) → ℕ → Filesys → Filesys
refilled see b f =
    if f.s_nfree - 1 == 0
    then record f { s_nfree = word_at (see b) 0; s_free = words (see b) 1 nfree_max }
    else record f { s_nfree = f.s_nfree - 1 }

-- From a state in which only the superblock and the buffers have moved, `claim_block` ends in one.
claim_block-after :
    (k k₁ : Kernel) (dev b : ℕ) (f g : Filesys)
    → get_elem? k.fs_tab dev ≡ some f
    → Reached k dev g k₁
    → ((d n : ℕ) → d < ndevs → view k₁ d n ≡ view k d n)
    → g.s_mounted ≡ smounted
    → g.s_isize ≤ b
    → b < g.s_fsize
    → g.s_tfree ≢ 0
    → Ready k dev b
    → Returns (claim_block dev b k₁) (λ r k'.
      (r ≡ b) × Reached k dev (record g { s_tfree = g.s_tfree - 1 }) k' × Zeroed k dev b k')
claim_block-after k k₁ dev b f g h r same m lo hi some_left ready =
    Returns.weaken
      (claim_block-ok k₁ dev b g (Reached-at r h) m lo hi some_left (r.ready dev b ready))
      λ v k' (e, s, z). (
        e,
        Reached-then r s,
        record {
          zero_block = z.zero_block;
          seen_others = λ d n p q. z.seen_others d n p q ∙ same d n p;
        },
      )

-- A superblock changed after nothing but the buffers had moved.
refilled-Reached :
    (k k₁ : Kernel) (dev : ℕ) (g : Filesys) → Undisturbed k k₁ → Reached k dev g (put_fs dev g k₁)
refilled-Reached k k₁ dev g u = record {
  tables = rw (u.tables);
  ready = λ d n q. (Reached-put_fs k₁ dev g).ready d n (u.ready d n q);
}

refill-ok :
    (k : Kernel) (dev b : ℕ) (f : Filesys)
    → get_elem? k.fs_tab dev ≡ some f
    → Ready k dev b
    → Returns (refill dev b k) (λ r k'.
      Reached k dev
        (record f { s_nfree = word_at (view k dev b) 0; s_free = words (view k dev b) 1 nfree_max })
        k'
      × ((d n : ℕ) → d < ndevs → view k' d n ≡ view k d n))
unfolding refill
refill-ok k dev b f h ready = Returns.bind _ (read_block-sees k dev b ready) λ bytes k₁ (e, u).
    let at : get_elem? k₁.fs_tab dev ≡ some f = rw (u.tables) h in
    let g = record f { s_nfree = word_at bytes 0; s_free = words bytes 1 nfree_max } in
    rw at (record {
      value = tt;
      state = put_fs dev g k₁;
      result = refl;
      post = rw (sym e) (refilled-Reached k k₁ dev g u, u.seen);
    })

pub draw-ok :
    (k : Kernel) (dev b : ℕ) (f : Filesys)
    → get_elem? k.fs_tab dev ≡ some f
    → f.s_mounted ≡ smounted
    → f.s_isize ≤ b
    → b < f.s_fsize
    → f.s_tfree ≢ 0
    → get_or f.s_free (f.s_nfree - 1) 0 ≡ b
    → b ≢ 0
    → Ready k dev b
    → Returns (draw dev f k) (λ r k'.
      (r ≡ b)
      × Reached k dev (record (refilled (view k dev) b f) { s_tfree = f.s_tfree - 1 }) k'
      × Zeroed k dev b k')
unfolding draw
draw-ok k dev b f h m lo hi some_left e ne ready =
    let other : (b == 0) ≡ false = ground arith in
    let g = record f { s_nfree = f.s_nfree - 1 } in
    let r = Reached-put_fs k dev g in
    elim (Bool-cases (f.s_nfree - 1 == 0)) [
      | inr q ↦
          rw (e, other, q)
            (claim_block-after k (put_fs dev g k) dev b f g h r (λ d n p. refl) m lo hi some_left
              ready)
      | inl q ↦
          rw (e, other, q)
            (Returns.bind _
              (refill-ok (put_fs dev g k) dev b g (Reached-at r h) (r.ready dev b ready))
              λ v k₂ (s, same).
                claim_block-after k k₂ dev b f _ h (Reached-then r s) same m lo hi some_left ready)
    ]
