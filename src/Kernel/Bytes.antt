-- ===== src/Kernel/Bytes.antt =====
-- Words in memory: the 6502 stores the low byte first. Used where uzi-nes-port/fs/filesys.c reads a
-- block buffer as an array of `blkno_t`.
use uzi_build.Prelude.{ℕ, zero, suc, ◌+◌, ◌*◌, ◌/◌, ◌%◌, List, [], ◌∷◌, get_or, set}

-- `((uint16 *) p)[i]`
abbrev pub word_at : List ℕ → ℕ → ℕ
word_at bytes i = get_or bytes (2 * i) 0 + 256 * get_or bytes (2 * i + 1) 0

-- `((uint16 *) p)[i] = w`
abbrev pub put_word : List ℕ → ℕ → ℕ → List ℕ
put_word bytes i w = set (set bytes (2 * i) (w % 256)) (2 * i + 1) (w / 256)

abbrev pub bytes_of_words : List ℕ → List ℕ
bytes_of_words [] = []
bytes_of_words (w ∷ ws) = w % 256 ∷ w / 256 ∷ bytes_of_words ws

-- `n` words of a block, from word `i` on.
abbrev pub words : List ℕ → ℕ → ℕ → List ℕ
words bytes i zero = []
words bytes i (suc n) = word_at bytes i ∷ words bytes (suc i) n
