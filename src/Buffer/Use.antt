-- ===== src/Buffer/Use.antt =====
-- A block read or changed between `bread` and `bfree` (uzi-nes-port/drivers/devio.c), the way the file
-- system uses the pool.
use uzi_build.Prelude.{
  ℕ, zero, suc, ◌<◌, ◌≡◌, refl, ◌≢◌, inl, inr, true, false, List, [], ◌∷◌, none, some, arith, ◌∙◌,
  sym, ◌==◌, ◌&&◌, get_elem?, set, get_elem?-set_self, get_elem?-set_ne, Bool-cases,
}
use uzi_build.Kernel.{Kernel, Blkbuf}
use uzi_build.Kernel.Returns
use uzi_build.Kernel.Returns.{Returns}
use uzi_build.Buffer.{ndevs, holds, bfind, put_buf, read_block, rewrite_block, brelse}
use uzi_build.Buffer.View.{Disk, lookup, view, IsSound, IsCoherent, set_same-IsCoherent}
use uzi_build.Buffer.Evict.{PoolCoherent, SameTables, IsSound-get_elem?}
use uzi_build.Buffer.Read.{lookup-bfind}
use uzi_build.Buffer.Obtain.{Ready, Obtained, bread-Obtained}
use uzi_build.Buffer.Release.{bfree-Released}

-- In a coherent pool the search finds the buffer that bears the name.
bfind-named :
    (disk : Disk) (bs : List Blkbuf) (i dev blk : ℕ) (b : Blkbuf)
    → IsCoherent disk bs
    → get_elem? bs i ≡ some b
    → holds dev blk b ≡ true
    → dev < ndevs
    → bfind dev blk bs ≡ some i
unfolding bfind
bfind-named disk [] i dev blk b c h p q = cc
bfind-named disk (x ∷ bs) zero dev blk b c h p q = ground arith
bfind-named disk (x ∷ bs) (suc i) dev blk b (s, apart, c) h p q =
    let rest = bfind-named disk bs i dev blk b c h p q in
    elim (Bool-cases (holds dev blk x)) [
      | inl e ↦ let same : bfind x.bf_dev x.bf_blk bs ≡ none = apart (ground arith) in ground arith
      | inr e ↦ rw (e, rest)
    ]

-- A buffer's contents matter to its own block only.
lookup-set_other :
    (disk : Disk) (bs : List Blkbuf) (i d n : ℕ) (b b' : Blkbuf)
    → get_elem? bs i ≡ some b
    → b'.bf_dev ≡ b.bf_dev
    → b'.bf_blk ≡ b.bf_blk
    → holds d n b ≡ false
    → lookup disk (set bs i b') d n ≡ lookup disk bs d n
lookup-set_other disk [] i d n b b' h e₁ e₂ p = refl
lookup-set_other disk (x ∷ bs) zero d n b b' h e₁ e₂ p = ground arith
lookup-set_other disk (x ∷ bs) (suc i) d n b b' h e₁ e₂ p =
    ground (arith, lookup-set_other disk bs i d n b b' h e₁ e₂ p)

-- The buffers of `k'` are idle or as in `k`, and one is idle.
Ready-after :
    {k k' : Kernel} (i : ℕ) (b' : Blkbuf)
    → SameTables k k'
    → PoolCoherent k'
    → get_elem? k'.bufpool i ≡ some b'
    → b'.bf_busy ≡ 0
    → ((j : ℕ) → i ≢ j → get_elem? k'.bufpool j ≡ get_elem? k.bufpool j)
    → (d n : ℕ) → Ready k d n
    → Ready k' d n
Ready-after {k} {k'} i b' same c at idle others d n ready = record {
  coherent = c;
  no_fault = λ e m. rw same (ready.no_fault e m);
  device = ready.device;
  spare = i;
  spare_buf = b';
  spare_at = at;
  spare_idle = idle;
  released = λ j b h p. elim (Bool-cases (i == j)) [
    | inl e ↦ let eq : i ≡ j = ground arith in let is : b ≡ b' = cc in rw is idle
    | inr e ↦ let ne : i ≢ j = ground arith in ready.released j b (sym (others j ne) ∙ h) p
  ];
}

-- A busy buffer's contents are replaced by its owner.
edited :
    (k : Kernel) (dev blk i : ℕ) (b : Blkbuf) (bytes : List ℕ)
    → get_elem? k.bufpool i ≡ some b
    → holds dev blk b ≡ true
    → b.bf_busy ≡ 1
    → dev < ndevs
    → PoolCoherent k
    → PoolCoherent (put_buf i (record b { bf_data = bytes }) k)
      × (view (put_buf i (record b { bf_data = bytes }) k) dev blk ≡ bytes)
      × ((d n : ℕ)
          → (d == dev && n == blk) ≡ false
          → view (put_buf i (record b { bf_data = bytes }) k) d n ≡ view k d n)
edited k dev blk i b bytes h p busy small c =
    let b' = record b { bf_data = bytes } in
    let s = IsSound-get_elem? k.disk k.bufpool i b c h in
    let sound : IsSound k.disk b' = record {
      agrees = λ q r. ground arith;
      owned = λ q. ground arith;
      flag = s.flag;
    } in
    let c' : PoolCoherent (put_buf i b' k) =
      set_same-IsCoherent k.disk k.bufpool i b b' h refl refl sound c in
    let at : get_elem? (set k.bufpool i b') i ≡ some b' = get_elem?-set_self k.bufpool i b b' h in
    (
      c',
      lookup-bfind k.disk (set k.bufpool i b') dev blk i b'
          (bfind-named k.disk (set k.bufpool i b') i dev blk b' c' at p small) at,
      λ d n q.
          lookup-set_other k.disk k.bufpool i d n b b' h refl refl (holds-other dev blk d n b p q),
    )
  where
    holds-other :
        (dev blk d n : ℕ) (b : Blkbuf)
        → holds dev blk b ≡ true
        → (d == dev && n == blk) ≡ false
        → holds d n b ≡ false
    holds-other dev blk d n b p q = ground arith

-- A block's contents have become `bytes`; nothing else that is seen has changed.
pub record Rewritten (k : Kernel) (dev blk : ℕ) (bytes : List ℕ) (k' : Kernel) : Type 0 where
  pub tables : SameTables k k'
  pub seen : view k' dev blk ≡ bytes
  pub seen_others :
      (d n : ℕ) → d < ndevs → (d == dev && n == blk) ≡ false → view k' d n ≡ view k d n
  pub ready : (d n : ℕ) → Ready k d n → Ready k' d n

-- With what `bread` needs, a block that is changed and given back with dirty 1 or 2 is seen as changed,
-- and every other block as before.
pub rewrite_block-Rewritten :
    (k : Kernel) (dev blk rewrite dirty : ℕ) (f : List ℕ → List ℕ) (bytes : List ℕ)
    → Ready k dev blk
    → dirty < 3
    → dirty ≢ 0
    → ((old : List ℕ) → (rewrite ≡ 0 → old ≡ view k dev blk) → f old ≡ bytes)
    → Returns (rewrite_block dev blk rewrite dirty f k) (λ r k'. Rewritten k dev blk bytes k')
unfolding rewrite_block
rewrite_block-Rewritten k dev blk rewrite dirty f bytes ready small ne is =
    Returns.bind _ (bread-Obtained k dev blk rewrite ready) λ r k₁ (i, e, o).
      let b = record (o.buf) { bf_data = f o.buf.bf_data } in
      let ed =
        edited k₁ dev blk i o.buf (f o.buf.bf_data) o.at o.is_named o.busy ready.device
          o.coherent in
      let at = get_elem?-set_self k₁.bufpool i o.buf b o.at in
      rw (e, o.at)
        (Returns.bind _
          (bfree-Released (put_buf i b k₁) i dirty b at ed.0 (rw (o.tables) (ready.no_fault)) small
            (ground arith) (λ z q. absurd (ne z)))
          λ v k' rel. record {
            value = tt;
            state = k';
            result = refl;
            post = record {
              tables = rw (rel.tables, o.tables);
              seen = rel.seen dev blk ∙ ed.1 ∙ is o.buf.bf_data o.contents;
              seen_others = λ d n p q. rel.seen d n ∙ ed.2 d n q ∙ o.seen_others d n p q;
              ready =
                  Ready-after i rel.buf (rw (rel.tables, o.tables)) rel.coherent rel.at rel.idle
                    (λ j q. rel.others j q ∙ get_elem?-set_ne k₁.bufpool i j b q ∙ o.others j q);
            };
          })

-- Nothing that is seen has changed.
pub record Undisturbed (k k' : Kernel) : Type 0 where
  pub tables : SameTables k k'
  pub seen : (d n : ℕ) → d < ndevs → view k' d n ≡ view k d n
  pub ready : (d n : ℕ) → Ready k d n → Ready k' d n

-- A plain read leaves every block as it was seen.
same_view :
    {k k' : Kernel} {dev blk i : ℕ}
    → Obtained k dev blk 0 i k'
    → (d n : ℕ) → d < ndevs
    → view k' d n ≡ view k d n
same_view {k} {k'} {dev} {blk} o d n p = elim (Bool-cases (d == dev && n == blk)) [
  | inr e ↦ o.seen_others d n p e
  | inl e ↦
      let e₁ : d ≡ dev = ground arith in
      let e₂ : n ≡ blk = ground arith in rw (e₁, e₂) (o.seen ∙ o.contents refl)
]

-- A buffer that was obtained by a plain read is given back.
pub brelse-Undisturbed :
    (k : Kernel) (dev blk i : ℕ) (k₁ : Kernel)
    → Ready k dev blk
    → Obtained k dev blk 0 i k₁
    → Returns (brelse i k₁) (λ r k'. Undisturbed k k')
unfolding brelse
brelse-Undisturbed k dev blk i k₁ ready o =
    Returns.weaken
      (bfree-Released k₁ i 0 o.buf o.at o.coherent (rw (o.tables) (ready.no_fault)) (omega arith)
        (ground arith) (λ z q. ground (arith, o.stored)))
      λ v k' rel. record {
        tables = rw (rel.tables, o.tables);
        seen = λ d n p. rel.seen d n ∙ same_view o d n p;
        ready =
            Ready-after i rel.buf (rw (rel.tables, o.tables)) rel.coherent rel.at rel.idle
              (λ j q. rel.others j q ∙ o.others j q);
      }

-- With what `bread` needs, a block that is read and given back is as it was seen, and nothing looks
-- different.
pub read_block-sees :
    (k : Kernel) (dev blk : ℕ)
    → Ready k dev blk
    → Returns (read_block dev blk k) (λ r k'. (r ≡ view k dev blk) × Undisturbed k k')
unfolding read_block
read_block-sees k dev blk ready =
    Returns.bind _ (bread-Obtained k dev blk 0 ready) λ r k₁ (i, e, o).
      rw (e, o.at)
        (Returns.bind _ (brelse-Undisturbed k dev blk i k₁ ready o) λ v k' u. record {
          value = o.buf.bf_data;
          state = k';
          result = refl;
          post = (o.contents refl, u);
        })
