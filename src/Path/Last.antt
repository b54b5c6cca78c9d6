-- ===== src/Path/Last.antt =====
-- What `filename` of uzi-nes-port/fs/filesys.c returns.
use native.Mathlib.Decide.{dec_le}
use uzi_build.Prelude.{
  ℕ, zero, suc, ◌-◌, ◌≡◌, ◌≤◌, refl, inl, inr, ◌≢◌, ◌⊎◌, List, [], ◌∷◌, ◌==◌, arith, get_or, drop,
  Bool-cases,
}
use uzi_build.Path.{slash, last_start, string_end, filename}

end_zero : (path : List ℕ) → get_or path (string_end path) 0 ≡ 0
unfolding string_end
end_zero [] = refl
end_zero (c ∷ cs) = elim (Bool-cases (c == 0)) [
  | inl e ↦ rw e (ground arith)
  | inr e ↦ rw e (end_zero cs)
]

-- A place behind which there is no slash up to `p`, and in front of which there is one unless it is the
-- beginning.
abbrev IsStart : List ℕ → ℕ → ℕ → Type 0
IsStart path p start =
    (start ≤ suc p)
    × ((j : ℕ) → start ≤ j → j ≤ p → get_or path j 0 ≢ slash)
    × ((start ≡ 0) ⊎ (get_or path (start - 1) 0 ≡ slash))

last_start-IsStart : (path : List ℕ) (p : ℕ) → IsStart path p (last_start path p)
unfolding last_start
last_start-IsStart path zero = elim (Bool-cases (get_or path 0 0 == slash)) [
  | inl e ↦ rw e (omega arith, λ j lo hi. absurd (omega arith), inr (ground arith))
  | inr e ↦
      rw e (omega arith, λ j lo hi. let z : j ≡ 0 = omega arith in rw z (ground arith), inl refl)
]
last_start-IsStart path (suc p) = elim (Bool-cases (get_or path (suc p) 0 == slash)) [
  | inl e ↦
      let back : suc (suc p) - 1 ≡ suc p = omega arith in
      rw e (omega arith, λ j lo hi. absurd (omega arith), inr (rw back (ground arith)))
  | inr e ↦
      let (le, none_behind, front) = last_start-IsStart path p in
      rw e (
        omega arith,
        λ j lo hi. elim (dec_le j p) [
          | yes q ↦ none_behind j lo q
          | no q ↦ let z : j ≡ suc p = omega arith in rw z (ground arith)
        ],
        front,
      )
]

bounded :
    (path : List ℕ) (start : ℕ)
    → start ≤ suc (string_end path)
    → (start ≡ 0) ⊎ (get_or path (start - 1) 0 ≡ slash)
    → start ≤ string_end path
bounded path start le (inl z) = omega arith
bounded path start le (inr e) = elim (dec_le start (string_end path)) [
  | yes q ↦ q
  | no q ↦
      let end = end_zero path in
      let last : start - 1 ≡ string_end path = omega arith in
      let here : get_or path (string_end path) 0 ≡ slash = rw last at e in omega arith
]

-- `filename` returns the rest of the path from a place in the string on behind which no slash comes up to the
-- string's end, and which is the beginning of the path or comes right behind a slash.
pub filename_lem :
    (path : List ℕ)
    → (start : ℕ) × (filename path ≡ drop start path)
      × (start ≤ string_end path)
      × ((j : ℕ) → start ≤ j → j ≤ string_end path → get_or path j 0 ≢ slash)
      × ((start ≡ 0) ⊎ (get_or path (start - 1) 0 ≡ slash))
unfolding filename
filename_lem path =
    let start = last_start path (string_end path) in
    let (le, none_behind, front) = last_start-IsStart path (string_end path) in
    (start, refl, bounded path start le front, none_behind, front)
