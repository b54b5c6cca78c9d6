-- ===== src/FreeList/Push.antt =====
-- A block put in front of a chain of uzi-nes-port/fs/filesys.c.
use uzi_build.Prelude.{
  ℕ, zero, suc, ◌+◌, ◌<◌, ◌≡◌, ◌≢◌, List, ◌∷◌, arith, length, set, get_or-set_self,
}
use mathlib.Core.Path.{subst}
use uzi_build.Kernel.Bytes.{word_at, words}
use uzi_build.Format.{nfree_max}
use uzi_build.FreeList.Chain.{IsChain, next, link, AllApart, IsChain-see, IsChain-set, IsChain-pos}

-- A block listed above the others.
pub IsChain-push :
    (see : ℕ → List ℕ) (n b : ℕ) (free bs : List ℕ)
    → IsChain see n free bs
    → n < length free
    → b ≢ 0
    → IsChain see (n + 1) (set free n b) (b ∷ bs)
IsChain-push see n b free bs c p ne = pushed n c p
  where
    pushed :
        (n : ℕ)
        → IsChain see n free bs
        → n < length free
        → IsChain see (n + 1) (set free n b) (b ∷ bs)
    pushed zero c p = absurd (omega (arith, IsChain-pos see 0 free bs c))
    pushed (suc m) c p =
        subst (λ k. IsChain see k (set free (suc m) b) (b ∷ bs)) {x = suc (suc m)} {y = suc m + 1}
          (omega arith)
          (next (get_or-set_self free (suc m) b 0 p) ne
            (IsChain-set see (suc m) (suc m) b free bs (omega arith) c))

-- A block that holds the list of the others.
pub IsChain-link :
    (see see' : ℕ → List ℕ) (b : ℕ) (free bs : List ℕ)
    → ((x : ℕ) → b ≢ x → see' x ≡ see x)
    → AllApart b bs
    → b ≢ 0
    → 0 < length free
    → word_at (see' b) 0 ≡ nfree_max
    → words (see' b) 1 nfree_max ≡ free
    → IsChain see nfree_max free bs
    → IsChain see' 1 (set free 0 b) (b ∷ bs)
IsChain-link see see' b free bs same apart ne p e₁ e₂ c =
    link (get_or-set_self free 0 b 0 p) ne (omega arith)
      (rw (e₁, e₂) (IsChain-see see see' b nfree_max free bs same apart c))
