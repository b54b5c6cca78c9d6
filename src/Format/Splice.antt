-- ===== src/Format/Splice.antt =====
-- Bytes written into the middle of a block of uzi-nes-port.
use uzi_build.Prelude.{
  ℕ, zero, suc, ◌+◌, ◌-◌, ◌<◌, ◌≤◌, ◌≡◌, refl, ap, ◌∙◌, List, [], ◌∷◌, ◌++◌, arith, length, get_or,
  take, drop, length-take, ◌⊎◌, inl, inr,
}
use uzi_build.Format.Words.{get_or-drop}

get_or-append_left :
    (xs ys : List ℕ) (i : ℕ) → i < length xs → get_or (xs ++ ys) i 0 ≡ get_or xs i 0
get_or-append_left [] ys i p = absurd (omega arith)
get_or-append_left (x ∷ xs) ys zero p = refl
get_or-append_left (x ∷ xs) ys (suc i) p = get_or-append_left xs ys i (omega arith)

get_or-append_right : (xs ys : List ℕ) (i : ℕ) → get_or (xs ++ ys) (length xs + i) 0 ≡ get_or ys i 0
get_or-append_right [] ys i = ap (λ j. get_or ys j 0) (omega arith)
get_or-append_right (x ∷ xs) ys i =
    ap (λ j. get_or (x ∷ (xs ++ ys)) j 0) {x = suc (length xs) + i} {y = suc (length xs + i)}
      (omega arith)
    ∙ get_or-append_right xs ys i

pub get_or-take : (xs : List ℕ) (n i : ℕ) → i < n → get_or (take n xs) i 0 ≡ get_or xs i 0
get_or-take xs zero i p = absurd (omega arith)
get_or-take [] (suc n) i p = refl
get_or-take (x ∷ xs) (suc n) zero p = refl
get_or-take (x ∷ xs) (suc n) (suc i) p = get_or-take xs n i (omega arith)

-- Bytes `ds` put at `n` into a block: what is in front and what is behind stays.
abbrev pub splice : ℕ → List ℕ → List ℕ → List ℕ
splice n ds block = take n block ++ (ds ++ drop (n + length ds) block)

pub splice-other :
    (n : ℕ) (ds block : List ℕ) (i : ℕ)
    → n + length ds ≤ length block
    → (i < n) ⊎ (n + length ds ≤ i)
    → get_or (splice n ds block) i 0 ≡ get_or block i 0
splice-other n ds block i fits (inl before) =
    get_or-append_left (take n block) (ds ++ drop (n + length ds) block) i
      (omega (arith, length-take n block))
    ∙ get_or-take block n i before
splice-other n ds block i fits (inr behind) =
    let k = i - (n + length ds) in
    let front = take n block in
    let back = drop (n + length ds) block in
    ap (λ j. get_or (front ++ (ds ++ back)) j 0) {x = i} {y = length front + (length ds + k)}
      (omega (arith, length-take n block))
    ∙ get_or-append_right front (ds ++ back) (length ds + k)
    ∙ get_or-append_right ds back k
    ∙ get_or-drop block (n + length ds) k 0
    ∙ ap (λ j. get_or block j 0) {x = n + length ds + k} {y = i} (omega arith)

pub drop-splice :
    (n : ℕ) (ds block : List ℕ)
    → n ≤ length block
    → drop n (splice n ds block) ≡ ds ++ drop (n + length ds) block
drop-splice n ds block p =
    drop-append (take n block) n (ds ++ drop (n + length ds) block)
      (omega (arith, length-take n block))
  where
    drop-append : (xs : List ℕ) (m : ℕ) (ys : List ℕ) → length xs ≡ m → drop m (xs ++ ys) ≡ ys
    drop-append [] zero ys e = refl
    drop-append [] (suc m) ys e = absurd (omega arith)
    drop-append (x ∷ xs) zero ys e = absurd (omega arith)
    drop-append (x ∷ xs) (suc m) ys e = drop-append xs m ys (omega arith)
