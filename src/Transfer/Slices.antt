-- ===== src/Transfer/Slices.antt =====
-- The bytes of a file, in order: a specification of what `readi` of uzi-nes-port/kernel/scall1.c delivers.
use uzi_build.Prelude.{
  ℕ, zero, suc, ◌+◌, ◌*◌, ◌/◌, ◌%◌, ◌≡◌, ◌≤◌, ◌<◌, refl, ap, ◌∙◌, List, [], ◌∷◌, ◌++◌, arith,
  length, get_or, take, drop,
}

-- `n` bytes from position `p` on.
abbrev pub slice : (ℕ → ℕ) → ℕ → ℕ → List ℕ
slice byte p zero = []
slice byte p (suc n) = byte p ∷ slice byte (suc p) n

-- The byte at a position of a file whose blocks of 512 bytes are given.
abbrev pub file_byte : (ℕ → List ℕ) → ℕ → ℕ
file_byte blocks p = get_or (blocks (p / 512)) (p % 512) 0

pub slice-plus :
    (byte : ℕ → ℕ) (p m n : ℕ) → slice byte p (m + n) ≡ slice byte p m ++ slice byte (p + m) n
slice-plus byte p zero n =
    let e : p + 0 ≡ p = omega arith in let e' : 0 + n ≡ n = omega arith in rw (e, e') refl
slice-plus byte p (suc m) n =
    let e : suc p + m ≡ p + suc m = omega arith in
    let e' : suc m + n ≡ suc (m + n) = omega arith in
    rw e' (ap (λ l. byte p ∷ l) (rw e at (slice-plus byte (suc p) m n)))

pub slice-cong :
    (f g : ℕ → ℕ) (p q n : ℕ)
    → ((j : ℕ) → j < n → f (p + j) ≡ g (q + j))
    → slice f p n ≡ slice g q n
slice-cong f g p q zero h = refl
slice-cong f g p q (suc n) h =
    let here = h 0 (omega arith) in
    let e : p + 0 ≡ p = omega arith in
    let e' : q + 0 ≡ q = omega arith in
    let first : f p ≡ g q = rw (e, e') at here in
    rw (
      first,
      slice-cong f g (suc p) (suc q) n λ j lt.
          let r : suc p + j ≡ p + suc j = omega arith in
          let r' : suc q + j ≡ q + suc j = omega arith in rw (r, r') (h (suc j) (omega arith)),
    )

pub take-slice :
    (xs : List ℕ) (o n : ℕ)
    → o + n ≤ length xs
    → take n (drop o xs) ≡ slice (λ j. get_or xs j 0) o n
take-slice xs o zero h = refl
take-slice [] o (suc n) h = absurd (omega arith)
take-slice (x ∷ xs) zero (suc n) h =
    ap (λ l. x ∷ l)
      (take-slice xs 0 n (omega arith)
        ∙ slice-cong (λ j. get_or xs j 0) (λ j. get_or (x ∷ xs) j 0) 0 1 n
            (λ j lt.
              let a : 0 + j ≡ j = omega arith in
              let b : 1 + j ≡ suc j = omega arith in rw (a, b) refl))
take-slice (x ∷ xs) (suc o) (suc n) h =
    take-slice xs o (suc n) (omega arith)
    ∙ slice-cong (λ j. get_or xs j 0) (λ j. get_or (x ∷ xs) j 0) o (suc o) (suc n)
        (λ j lt. let a : suc o + j ≡ suc (o + j) = omega arith in rw a refl)

-- A piece of one block is a piece of the file.
pub take-file :
    (blocks : ℕ → List ℕ) (bn o n : ℕ)
    → length (blocks bn) ≡ 512
    → o < 512
    → o + n ≤ 512
    → take n (drop o (blocks bn)) ≡ slice (file_byte blocks) (512 * bn + o) n
take-file blocks bn o n whole small fits =
    take-slice (blocks bn) o n (omega arith)
    ∙ slice-cong (λ j. get_or (blocks bn) j 0) (file_byte blocks) o (512 * bn + o) n
        (λ j lt.
          let q : (512 * bn + o + j) / 512 ≡ bn = omega arith in
          let r : (512 * bn + o + j) % 512 ≡ o + j = omega arith in rw (q, r))
