-- ===== src/FreeList/Chain.antt =====
-- What a superblock's `s_nfree` and `s_free` stand for in uzi-nes-port/fs/filesys.c: the sequence of
-- free blocks, in the order in which `blk_alloc` hands them out, whichever of them are in the
-- superblock and whichever in the blocks of the chain.
use uzi_build.Prelude.{
  ℕ, suc, ◌<◌, ◌≤◌, ◌≡◌, ◌≢◌, List, [], ◌∷◌, arith, get_or, set, get_or-set_ne, ◌∙◌,
}
use native.Mathlib.Decide.{dec_lt}
use uzi_build.Kernel.Bytes.{word_at, words}
use uzi_build.Format.{nfree_max}

-- Address 0 at the bottom ends the chain; another address there is a block that holds the next part.
pub data IsChain (see : ℕ → List ℕ) : ℕ → List ℕ → List ℕ → Type 0 where
  last : {free : List ℕ} → get_or free 0 0 ≡ 0 → IsChain see 1 free []
  next :
      {n b : ℕ} {free bs : List ℕ}
      → get_or free (suc n) 0 ≡ b
      → b ≢ 0
      → IsChain see (suc n) free bs
      → IsChain see (suc (suc n)) free (b ∷ bs)
  link :
      {b : ℕ} {free bs : List ℕ}
      → get_or free 0 0 ≡ b
      → b ≢ 0
      → word_at (see b) 0 ≤ nfree_max
      → IsChain see (word_at (see b) 0) (words (see b) 1 nfree_max) bs
      → IsChain see 1 free (b ∷ bs)

-- Every block lies between `lo` and `hi`, and none is `b`.
abbrev pub AllWithin : ℕ → ℕ → List ℕ → Type 0
AllWithin lo hi [] = Unit {0}
AllWithin lo hi (b ∷ bs) = (lo ≤ b) × (b < hi) × AllWithin lo hi bs

abbrev pub AllApart : ℕ → List ℕ → Type 0
AllApart b [] = Unit {0}
AllApart b (c ∷ cs) = (b ≢ c) × AllApart b cs

-- The blocks are different from each other.
abbrev pub AllDistinct : List ℕ → Type 0
AllDistinct [] = Unit {0}
AllDistinct (b ∷ bs) = AllApart b bs × AllDistinct bs

-- A chain depends on what its own blocks hold only.
pub IsChain-see :
    (see see' : ℕ → List ℕ) (b n : ℕ) (free bs : List ℕ)
    → ((x : ℕ) → b ≢ x → see' x ≡ see x)
    → AllApart b bs
    → IsChain see n free bs
    → IsChain see' n free bs
IsChain-see see see' b n free bs same apart (last e) = last e
IsChain-see see see' b n free (c ∷ bs) same apart (next e ne rest) =
    next e ne (IsChain-see see see' b _ free bs same apart.1 rest)
IsChain-see see see' b n free (c ∷ bs) same apart (link e ne le rest) =
    let is : see' c ≡ see c = same c apart.0 in
    link e ne (rw is le) (rw is (IsChain-see see see' b _ _ bs same apart.1 rest))

-- And on the addresses below `n`.
pub IsChain-set :
    (see : ℕ → List ℕ) (n m v : ℕ) (free bs : List ℕ)
    → n ≤ m
    → IsChain see n free bs
    → IsChain see n (set free m v) bs
IsChain-set see n m v free bs le (last e) = last (get_or-set_ne free m 0 v 0 (omega arith) ∙ e)
IsChain-set see n m v free (b ∷ bs) le (next {n = k} e ne rest) =
    next (get_or-set_ne free m (suc k) v 0 (omega arith) ∙ e) ne
      (IsChain-set see (suc k) m v free bs (omega arith) rest)
IsChain-set see n m v free (b ∷ bs) le (link e ne small rest) =
    link (get_or-set_ne free m 0 v 0 (omega arith) ∙ e) ne small rest

pub IsChain-pos : (see : ℕ → List ℕ) (n : ℕ) (free bs : List ℕ) → IsChain see n free bs → 0 < n
IsChain-pos see n free bs (last e) = omega arith
IsChain-pos see n free bs (next e ne rest) = omega arith
IsChain-pos see n free bs (link e ne le rest) = omega arith

-- The addresses below `n` are those of blocks, or 0.
pub IsChain-below :
    (see : ℕ → List ℕ) (n lo hi : ℕ) (free bs : List ℕ)
    → IsChain see n free bs
    → AllWithin lo hi bs
    → (j : ℕ) → j < n
    → get_or free j 0 ≤ hi
IsChain-below see n lo hi free bs (last e) within j p = ground arith
IsChain-below see n lo hi free (b ∷ bs) (next {n = k} e ne rest) within j p =
    elim (dec_lt j (suc k)) [
      | yes lt ↦ IsChain-below see (suc k) lo hi free bs rest within.2 j lt
      | no ge ↦ let is : j ≡ suc k = omega arith in rw is (ground arith)
    ]
IsChain-below see n lo hi free (b ∷ bs) (link e ne le rest) within j p = ground arith
