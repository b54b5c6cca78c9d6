-- ===== src/Mkfs/Chain.antt =====
-- The free list that `mkfs` of uzi-nes-utils/fs/mkfs.c builds is one that the kernel's `blk_alloc` reads.
use uzi_build.Prelude.{
  ℕ, zero, suc, ◌+◌, ◌-◌, ◌<◌, ◌≤◌, ◌≡◌, refl, sym, ap, ◌∙◌, inl, inr, List, [], ◌∷◌, ◌++◌, arith,
  ◌==◌, length, take, drop, replicate, length-set, Bool-cases,
}
use uzi_build.Kernel.Bytes.{word_at, words}
use uzi_build.Format.{nfree_max, table_bytes}
use uzi_build.Format.Table.{table_bytes-tail}
use uzi_build.Buffer.{block_size}
use uzi_build.FreeList.Chain.{
  IsChain, last, AllWithin, AllDistinct, AllApart, IsChain-see, IsChain-below,
}
use uzi_build.FreeList.Push.{IsChain-push, IsChain-link}
use uzi_build.FreeList.Spill.{AllWords-get_or, listed}
use uzi_build.Mkfs.{Image, dwrite, free_block, free_blocks, new_super, mkfs}

-- `n` numbers from `a` on.
abbrev pub range : ℕ → ℕ → List ℕ
range a zero = []
range a (suc n) = a ∷ range (suc a) n

-- The image holds `bs` as its free blocks, all above `lo`.
pub record Made (m : Image) (lo hi : ℕ) (bs : List ℕ) : Type 0 where
  pub within : AllWithin (suc lo) hi bs
  pub distinct : AllDistinct bs
  pub count : m.super.s_tfree ≡ length bs
  pub room : length m.super.s_free ≡ nfree_max
  pub few : m.super.s_nfree ≤ nfree_max
  pub chain : IsChain m.blocks m.super.s_nfree m.super.s_free bs

AllWithin-apart : (lo hi : ℕ) (bs : List ℕ) → AllWithin (suc lo) hi bs → AllApart lo bs
AllWithin-apart lo hi [] w = tt
AllWithin-apart lo hi (b ∷ bs) w = (omega arith, AllWithin-apart lo hi bs w.2)

pub AllWithin-weaken : (lo hi : ℕ) (bs : List ℕ) → AllWithin (suc lo) hi bs → AllWithin lo hi bs
AllWithin-weaken lo hi [] w = tt
AllWithin-weaken lo hi (b ∷ bs) w = (omega arith, w.1, AllWithin-weaken lo hi bs w.2)

spilled :
    (behind : List ℕ) (j hi : ℕ) (m : Image) (bs : List ℕ)
    → Made m (suc j) hi bs
    → m.super.s_nfree ≡ nfree_max
    → hi < 65536
    → (word_at (take block_size (drop 6 (table_bytes 0 (m.super ∷ []) behind))) 0 ≡ nfree_max)
      × (words (take block_size (drop 6 (table_bytes 0 (m.super ∷ []) behind))) 1 nfree_max
          ≡ m.super.s_free)
spilled behind j hi m bs v full small =
    let bytes = take block_size (drop 6 (table_bytes 0 (m.super ∷ []) behind)) in
    let (rest, e) = table_bytes-tail 0 m.super [] behind in
    let all = AllWords-get_or m.super.s_free (λ i q.
      let below =
        IsChain-below m.blocks m.super.s_nfree (suc (suc j)) hi m.super.s_free bs v.chain v.within i
          (omega (arith, v.room)) in
      omega arith) in
    let (number, list) =
      listed m.super rest bytes (ap (take block_size) e) (omega arith) v.room all in
    (number ∙ full, list)

free_block-Made :
    (behind : List ℕ) (j hi : ℕ) (m : Image) (bs : List ℕ)
    → Made m (suc j) hi bs
    → suc j < hi
    → hi < 65536
    → length bs < 65535
    → Made (free_block behind (suc j) m) j hi (suc j ∷ bs)
unfolding free_block
free_block-Made behind j hi m bs v p small fewer =
    elim (Bool-cases (m.super.s_nfree == nfree_max)) [
      | inr e ↦ rw e (record {
        within = (omega arith, p, AllWithin-weaken (suc j) hi bs v.within);
        distinct = (AllWithin-apart (suc j) hi bs v.within, v.distinct);
        count = omega (arith, v.count);
        room = length-set m.super.s_free m.super.s_nfree (suc j) ∙ v.room;
        few = ground (arith, v.few);
        chain =
            IsChain-push m.blocks m.super.s_nfree (suc j) m.super.s_free bs v.chain
              (ground (arith, v.few, v.room)) (omega arith);
      })
      | inl e ↦
          let full : m.super.s_nfree ≡ nfree_max = ground arith in
          let written =
            dwrite (suc j) (take block_size (drop 6 (table_bytes 0 (m.super ∷ []) behind)))
              m.blocks in
          let (number, list) = spilled behind j hi m bs v full small in
          let here : written (suc j)
              ≡ take block_size (drop 6 (table_bytes 0 (m.super ∷ []) behind)) =
            ground arith in
          rw e (record {
            within = (omega arith, p, AllWithin-weaken (suc j) hi bs v.within);
            distinct = (AllWithin-apart (suc j) hi bs v.within, v.distinct);
            count = omega (arith, v.count);
            room = length-set m.super.s_free 0 (suc j) ∙ v.room;
            few = omega arith;
            chain =
                IsChain-link m.blocks written (suc j) m.super.s_free bs (λ x q. ground arith)
                  (AllWithin-apart (suc j) hi bs v.within) (omega arith) (omega (arith, v.room))
                  (rw here number) (rw here list) (rw full at v.chain);
          })
    ]

range-append : (a n b : ℕ) (bs : List ℕ) → b ≡ a + n → range a n ++ (b ∷ bs) ≡ range a (suc n) ++ bs
range-append a zero b bs e = let same : b ≡ a = omega arith in rw same
range-append a (suc n) b bs e = ap (λ l. a ∷ l) (range-append (suc a) n b bs (omega arith))

length-range : (a n : ℕ) → length (range a n) ≡ n
length-range a zero = refl
length-range a (suc n) = ap suc (length-range (suc a) n)

free_blocks-Made :
    (behind : List ℕ) (isize n hi : ℕ) (m : Image) (bs : List ℕ)
    → Made m (isize + n) hi bs
    → isize + n < hi
    → hi < 65536
    → length bs + n < 65535
    → Made (free_blocks behind isize n m) isize hi (range (suc isize) n ++ bs)
unfolding free_blocks
free_blocks-Made behind isize zero hi m bs v p small fewer =
    let same : isize + 0 ≡ isize = omega arith in rw same at v
free_blocks-Made behind isize (suc n) hi m bs v p small fewer =
    let next : isize + suc n ≡ suc (isize + n) = omega arith in
    let v' =
      free_block-Made behind (isize + n) hi m bs (rw next at v) (omega arith) small (omega arith) in
    rw (next, sym (range-append (suc isize) n (suc (isize + n)) bs (omega arith)))
      (free_blocks-Made behind isize n hi (free_block behind (suc (isize + n)) m)
        (suc (isize + n) ∷ bs) v' (omega arith) small (omega arith))

append_nil : (xs : List ℕ) → xs ++ [] ≡ xs
append_nil [] = refl
append_nil (x ∷ xs) = ap (λ l. x ∷ l) (append_nil xs)

AllWithin-below : (c lo hi : ℕ) (bs : List ℕ) → c < lo → AllWithin lo hi bs → AllApart c bs
AllWithin-below c lo hi [] p w = tt
AllWithin-below c lo hi (b ∷ bs) p w = (omega arith, AllWithin-below c lo hi bs p w.2)

IsChain-written :
    (see : ℕ → List ℕ) (c : ℕ) (bytes : List ℕ) (n : ℕ) (free bs : List ℕ)
    → AllApart c bs
    → IsChain see n free bs
    → IsChain (dwrite c bytes see) n free bs
IsChain-written see c bytes n free bs apart chain =
    IsChain-see see (dwrite c bytes see) c n free bs (λ x ne. ground arith) apart chain

-- The image before the free list is built.
abbrev pub blank : ℕ → ℕ → Image
blank fsize isize = record { super = new_super fsize isize; blocks = λ x. replicate block_size 0 }

-- The image once it is built.
pub blocks-Made :
    (behind : List ℕ) (fsize isize : ℕ)
    → isize < fsize
    → fsize < 65536
    → Made
        (free_blocks behind isize (fsize - 1 - isize) (blank fsize isize))
        isize
        fsize
        (range (suc isize) (fsize - 1 - isize))
unfolding new_super
blocks-Made behind fsize isize p r =
    let n = fsize - 1 - isize in
    let start : Made (blank fsize isize) (isize + n) fsize [] = record {
      within = tt;
      distinct = tt;
      count = refl;
      room = refl;
      few = omega arith;
      chain = last refl;
    } in
    let v =
      free_blocks-Made behind isize n fsize (blank fsize isize) [] start (omega arith) r
        (omega arith) in
    rw (append_nil (range (suc isize) n)) at v

-- With `isize` below `fsize` and at least 2, `mkfs` leaves a superblock of which every
-- block behind `isize` is free, in ascending order, and counted; the chain through the blocks of the
-- image is intact.
pub mkfs-IsChain :
    (behind : List ℕ) (fsize isize : ℕ)
    → isize < fsize
    → 2 ≤ isize
    → fsize < 65536
    → IsChain
        (mkfs behind fsize isize).blocks
        (mkfs behind fsize isize).super.s_nfree
        (mkfs behind fsize isize).super.s_free
        (range (suc isize) (fsize - 1 - isize))
      × ((mkfs behind fsize isize).super.s_tfree ≡ fsize - 1 - isize)
unfolding mkfs
mkfs-IsChain behind fsize isize p q r =
    let n = fsize - 1 - isize in
    let w = blocks-Made behind fsize isize p r in
    let apart = λ (c : ℕ) (below : c < suc isize).
      AllWithin-below c (suc isize) fsize (range (suc isize) n) below w.within in
    (
      IsChain-written _ 1 _ _ _ _ (apart 1 (omega arith)) (
          IsChain-written _ isize _ _ _ _ (apart isize (omega arith))
            (IsChain-written _ 2 _ _ _ _ (apart 2 (omega arith)) w.chain)),
      w.count ∙ length-range (suc isize) n,
    )
