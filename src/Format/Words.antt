-- ===== src/Format/Words.antt =====
-- Words read back from the bytes that uzi-nes-port writes for them.
use uzi_build.Prelude.{
  ℕ, zero, suc, ◌+◌, ◌*◌, ◌%◌, ◌/◌, ◌<◌, ◌≡◌, refl, ap, ◌∙◌, List, [], ◌∷◌, ◌++◌, arith, length,
  get_or, drop,
}
use uzi_build.Kernel.Bytes.{word_at, bytes_of_words, words}

-- Every number of the list fits in 16 bits.
abbrev pub AllWords : List ℕ → Type 0
AllWords [] = Unit {0}
AllWords (w ∷ ws) = (w < 65536) × AllWords ws

pub get_or-drop : (xs : List ℕ) (n i d : ℕ) → get_or (drop n xs) i d ≡ get_or xs (n + i) d
get_or-drop xs zero i d = ap (λ k. get_or xs k d) (omega arith)
get_or-drop [] (suc n) i d = refl
get_or-drop (x ∷ xs) (suc n) i d =
    get_or-drop xs n i d
    ∙ ap (λ k. get_or (x ∷ xs) k d) {x = suc (n + i)} {y = suc n + i} (omega arith)

-- One word later is two bytes later.
word_at-suc : (x y : ℕ) (bytes : List ℕ) (i : ℕ) → word_at (x ∷ y ∷ bytes) (suc i) ≡ word_at bytes i
word_at-suc x y bytes i =
    let lo : 2 * suc i ≡ suc (suc (2 * i)) = omega arith in
    let hi : 2 * suc i + 1 ≡ suc (suc (2 * i + 1)) = omega arith in rw (hi, lo)

-- A word of a list is read back from its bytes, whatever follows them.
pub word_at-bytes :
    (ws rest : List ℕ) (i : ℕ)
    → AllWords ws
    → i < length ws
    → word_at (bytes_of_words ws ++ rest) i ≡ get_or ws i 0
word_at-bytes [] rest i all p = absurd (omega arith)
word_at-bytes (w ∷ ws) rest zero all p = omega arith
word_at-bytes (w ∷ ws) rest (suc i) all p =
    word_at-suc (w % 256) (w / 256) (bytes_of_words ws ++ rest) i
    ∙ word_at-bytes ws rest i all.1 (omega arith)

words-suc : (x y : ℕ) (bytes : List ℕ) (i n : ℕ) → words (x ∷ y ∷ bytes) (suc i) n ≡ words bytes i n
words-suc x y bytes i zero = refl
words-suc x y bytes i (suc n) = rw (word_at-suc x y bytes i, words-suc x y bytes (suc i) n)

-- So are all words, from the front.
pub words-bytes :
    (ws rest : List ℕ) → AllWords ws → words (bytes_of_words ws ++ rest) 0 (length ws) ≡ ws
words-bytes [] rest all = refl
words-bytes (w ∷ ws) rest (p, all) =
    let first : w % 256 + 256 * (w / 256) ≡ w = omega arith in
    rw
      (
        words-suc (w % 256) (w / 256) (bytes_of_words ws ++ rest) 0 (length ws),
        words-bytes ws rest all,
      )
      (ap (λ v. v ∷ ws) first)

-- Words behind the first `length us`.
pub words-bytes_at :
    (us ws rest : List ℕ)
    → AllWords ws
    → words (bytes_of_words us ++ (bytes_of_words ws ++ rest)) (length us) (length ws) ≡ ws
words-bytes_at [] ws rest all = words-bytes ws rest all
words-bytes_at (u ∷ us) ws rest all =
    words-suc (u % 256) (u / 256) (bytes_of_words us ++ (bytes_of_words ws ++ rest)) (length us)
      (length ws)
    ∙ words-bytes_at us ws rest all
