-- ===== src/Format/Table.antt =====
-- The bytes of the mount table from `s_nfree` of a superblock on, as uzi-nes-port/fs/filesys.c copies
-- them.
use uzi_build.Prelude.{ℕ, ◌/◌, ◌%◌, ◌≡◌, refl, ap, ◌∙◌, List, [], ◌∷◌, ◌++◌, drop}
use uzi_build.Kernel.{Filesys}
use uzi_build.Kernel.Bytes.{bytes_of_words}
use uzi_build.Format.{words_of_filesys, tail_words, table_bytes, word_of_ptr}

pub bytes_of_words-append :
    (us ws : List ℕ) → bytes_of_words (us ++ ws) ≡ bytes_of_words us ++ bytes_of_words ws
bytes_of_words-append [] ws = refl
bytes_of_words-append (u ∷ us) ws = rw (bytes_of_words-append us ws)

pub append_assoc : (xs ys zs : List ℕ) → (xs ++ ys) ++ zs ≡ xs ++ (ys ++ zs)
append_assoc [] ys zs = refl
append_assoc (x ∷ xs) ys zs = ap (λ l. x ∷ l) (append_assoc xs ys zs)

-- They are those of the number, of the list, and of what follows.
pub table_bytes-tail :
    (at : ℕ) (f : Filesys) (fs : List Filesys) (beyond : List ℕ)
    → (rest : List ℕ) × (drop 6 (table_bytes at (f ∷ fs) beyond)
        ≡ bytes_of_words (f.s_nfree ∷ []) ++ (bytes_of_words f.s_free ++ rest))
unfolding words_of_filesys tail_words table_bytes
table_bytes-tail at f fs beyond =
    let behind =
      f.s_ninode
      ∷ (f.s_inode
          ++ (f.s_fmod
              ∷ f.s_time.t_time
              ∷ f.s_time.t_date
              ∷ f.s_tfree
              ∷ f.s_tinode
              ∷ word_of_ptr at f.s_mntpt
              ∷ [])) in
    let memory = table_bytes at fs beyond in
    (
      bytes_of_words behind ++ memory,
      ap (λ l. f.s_nfree % 256 ∷ f.s_nfree / 256 ∷ l)
          (ap (λ l. l ++ memory) (bytes_of_words-append f.s_free behind)
            ∙ append_assoc (bytes_of_words f.s_free) (bytes_of_words behind) memory),
    )
