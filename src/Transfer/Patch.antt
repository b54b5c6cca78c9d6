-- ===== src/Transfer/Patch.antt =====
-- Bytes laid over others, in a block and in a file: a specification of what `writei` of
-- uzi-nes-port/kernel/scall1.c does.
use uzi_build.Prelude.{
  ℕ, zero, suc, true, false, ◌+◌, ◌-◌, ◌≡◌, ◌≤◌, ◌<◌, refl, inl, inr, ◌∙◌, List, [], ◌∷◌, ◌++◌,
  arith, ◌&&◌, ltb, leb, if◌then◌else◌, length, get_or, take, drop, Bool-cases, length-take,
}
use uzi_build.Transfer.{patch, patch_block}

pub get_or-take :
    (n : ℕ) (xs : List ℕ) (j : ℕ) → get_or (take n xs) j 0 ≡ (if ltb j n then get_or xs j 0 else 0)
get_or-take zero xs j = ground arith
get_or-take (suc n) [] j = ground arith
get_or-take (suc n) (x ∷ xs) zero = ground arith
get_or-take (suc n) (x ∷ xs) (suc j) = ground (arith, get_or-take n xs j)

pub get_or-drop : (n : ℕ) (xs : List ℕ) (j : ℕ) → get_or (drop n xs) j 0 ≡ get_or xs (n + j) 0
get_or-drop zero xs j = let z : 0 + j ≡ j = omega arith in rw z refl
get_or-drop (suc n) [] j = refl
get_or-drop (suc n) (x ∷ xs) j =
    let z : suc n + j ≡ suc (n + j) = omega arith in rw z (get_or-drop n xs j)

get_or-append :
    (xs ys : List ℕ) (j : ℕ)
    → get_or (xs ++ ys) j 0
      ≡ (if ltb j (length xs) then get_or xs j 0 else get_or ys (j - length xs) 0)
get_or-append [] ys j = ground arith
get_or-append (x ∷ xs) ys zero = ground arith
get_or-append (x ∷ xs) ys (suc j) = ground (arith, get_or-append xs ys j)

-- Some bytes from a place on replaced by those of a list.
abbrev pub overlay : (ℕ → ℕ) → ℕ → ℕ → List ℕ → ℕ → ℕ
overlay byte at n new p = if leb at p && ltb p (at + n) then get_or new (p - at) 0 else byte p

pub get_or-patch :
    (old new : List ℕ) (at j : ℕ)
    → length old ≡ 512
    → at + length new ≤ 512
    → j < 512
    → get_or (patch_block old at new) j 0 ≡ overlay (λ q. get_or old q 0) at (length new) new j
unfolding patch_block patch
get_or-patch old new at j whole fits small =
    let rest = drop (at + length new) old in
    let front : length (take at old) ≡ at = length-take at old ∙ omega arith in
    let inner : ltb j 512 ≡ true = ground arith in
    get_or-take 512 (take at old ++ (new ++ rest)) j
    ∙ rw inner (
        get_or-append (take at old) (new ++ rest) j
        ∙ rw front (elim (Bool-cases (ltb j at)) [
          | inl e ↦
              let before : leb at j ≡ false = ground arith in
              rw (e, before) (get_or-take at old j ∙ rw e refl)
          | inr e ↦
              let after : leb at j ≡ true = ground arith in
              rw (e, after)
                (get_or-append new rest (j - at) ∙ elim (Bool-cases (ltb (j - at) (length new))) [
                  | inl f ↦ let g : ltb j (at + length new) ≡ true = ground arith in rw (f, g) refl
                  | inr f ↦
                      let g : ltb j (at + length new) ≡ false = ground arith in
                      let back : at + length new + (j - at - length new) ≡ j = ground arith in
                      rw (f, g)
                        (get_or-drop (at + length new) old (j - at - length new) ∙ rw back refl)
                ])
        ]))
