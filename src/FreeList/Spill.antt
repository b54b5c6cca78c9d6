-- ===== src/FreeList/Spill.antt =====
-- The superblock's list as `blk_free` of uzi-nes-port/fs/filesys.c copies it into a block: what
-- `blk_alloc` reads back there is the list.
use uzi_build.Prelude.{
  ℕ, zero, suc, ◌<◌, ◌≡◌, ◌∙◌, List, [], ◌∷◌, ◌++◌, some, arith, length, get_elem?, get_or, take,
  drop,
}
use mathlib.Core.Path.{subst}
use uzi_build.Kernel.{Kernel, Filesys}
use uzi_build.Kernel.Bytes.{word_at, words, bytes_of_words}
use uzi_build.Format.{nfree_max}
use uzi_build.Format.Words.{AllWords, words-bytes_at}
use uzi_build.Format.Table.{table_bytes-tail}
use uzi_build.Format.RoundTrip.{words-eq}
use uzi_build.Format.Splice.{get_or-take}
use uzi_build.Buffer.{block_size}
use uzi_build.FreeList.{free_bytes}

-- Numbers that are small one by one are small together.
pub AllWords-get_or :
    (ws : List ℕ) → ((j : ℕ) → j < length ws → get_or ws j 0 < 65536) → AllWords ws
AllWords-get_or [] h = tt
AllWords-get_or (w ∷ ws) h =
    (h 0 (omega arith), AllWords-get_or ws (λ j p. h (suc j) (omega arith)))

drop-get_elem? :
    {A : Type 0} (xs : List A) (i : ℕ) (x : A)
    → get_elem? xs i ≡ some x
    → drop i xs ≡ x ∷ drop (suc i) xs
drop-get_elem? [] i x h = cc
drop-get_elem? (y ∷ xs) zero x h = cc
drop-get_elem? (y ∷ xs) (suc i) x h = drop-get_elem? xs i x h

-- The bytes are those of the number, of the list, and of what follows in memory.
free_bytes-shape :
    (k : Kernel) (dev : ℕ) (f : Filesys)
    → get_elem? k.fs_tab dev ≡ some f
    → (rest : List ℕ) × (free_bytes dev k
        ≡ take block_size (bytes_of_words (f.s_nfree ∷ []) ++ (bytes_of_words f.s_free ++ rest)))
free_bytes-shape k dev f h =
    let (rest, e) = table_bytes-tail k.i_tab_at f (drop (suc dev) k.fs_tab) k.beyond in
    (rest, rw (drop-get_elem? k.fs_tab dev f h, e))

-- Bytes of that shape are read back as the number and the list.
pub listed :
    (f : Filesys) (rest bytes : List ℕ)
    → bytes ≡ take block_size (bytes_of_words (f.s_nfree ∷ []) ++ (bytes_of_words f.s_free ++ rest))
    → f.s_nfree < 65536
    → length f.s_free ≡ nfree_max
    → AllWords f.s_free
    → (word_at bytes 0 ≡ f.s_nfree) × (words bytes 1 nfree_max ≡ f.s_free)
listed f rest bytes e small long all =
    let l = bytes_of_words (f.s_nfree ∷ []) ++ (bytes_of_words f.s_free ++ rest) in
    let seen = λ (i : ℕ) (p : i < 512). get_or-take l 512 i p in
    rw e (
      (let lo = seen 0 (omega arith) in let hi = seen 1 (omega arith) in omega arith),
      words-eq (take 512 l) l 1 50 (λ j p. seen j (omega arith))
          ∙ subst (λ n. words l 1 n ≡ f.s_free) long
              (words-bytes_at (f.s_nfree ∷ []) f.s_free rest all),
    )

pub free_bytes-list :
    (k : Kernel) (dev : ℕ) (f : Filesys)
    → get_elem? k.fs_tab dev ≡ some f
    → f.s_nfree < 65536
    → length f.s_free ≡ nfree_max
    → AllWords f.s_free
    → (word_at (free_bytes dev k) 0 ≡ f.s_nfree) × (words (free_bytes dev k) 1 nfree_max ≡ f.s_free)
free_bytes-list k dev f h small long all =
    let (rest, e) = free_bytes-shape k dev f h in listed f rest (free_bytes dev k) e small long all
