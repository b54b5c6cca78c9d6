-- ===== src/Path/Compare.antt =====
-- What `namecomp` of uzi-nes-port/fs/filesys.c compares.
use uzi_build.Prelude.{
  ℕ, zero, suc, ◌-◌, ◌≡◌, inl, inr, ◌≢◌, ◌↔◌, List, [], ◌∷◌, false, ◌==◌, if◌then◌else◌, arith,
  Bool-cases,
}
use uzi_build.Path.{at_end, compare_names, namecomp}

-- The first `n` characters of a name, which a 0 or a slash ends.
pub component : ℕ → List ℕ → List ℕ
component zero name = []
component (suc n) [] = []
component (suc n) (c ∷ name) = if at_end c then [] else c ∷ component n name

compare_names-component :
    (n : ℕ) (n1 n2 : List ℕ)
    → (compare_names (suc n) n1 n2 ≢ 0) ↔ (component (suc n) n1 ≡ component (suc n) n2)
unfolding compare_names component
compare_names-component n [] [] = ground arith
compare_names-component n [] (d ∷ n2) = ground arith
compare_names-component n (c ∷ n1) [] = ground arith
compare_names-component zero (c ∷ n1) (d ∷ n2) = ground arith
compare_names-component (suc n) (c ∷ n1) (d ∷ n2) =
    let rest = compare_names-component n n1 n2 in
    let less : suc (suc n) - 1 ≡ suc n = omega arith in
    let more : (suc (suc n) == 1) ≡ false = ground arith in
    elim (Bool-cases (at_end c)) [
      | inl e ↦ rw (e, at_end) (ground arith)
      | inr e ↦ elim (Bool-cases (c == d)) [
        | inr q ↦ rw (e, q, at_end) (ground arith)
        | inl q ↦ let same : d ≡ c = ground arith in rw (same, e, more, less) (ground (arith, rest))
      ]
    ]

-- `namecomp` answers 0 just when the names differ in their first 14 characters, as far as a 0 or a slash
-- ends them.
pub namecomp-component :
    (n1 n2 : List ℕ) → (namecomp n1 n2 ≢ 0) ↔ (component 14 n1 ≡ component 14 n2)
unfolding namecomp
namecomp-component n1 n2 = compare_names-component 13 n1 n2
