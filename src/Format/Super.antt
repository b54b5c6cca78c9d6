-- ===== src/Format/Super.antt =====
-- A superblock, `struct filesys` of uzi-nes-port/include/unix.h, read back from the bytes of its block.
use uzi_build.Prelude.{
  ℕ, zero, suc, ◌+◌, ◌-◌, ◌*◌, ◌<◌, ◌≤◌, ◌≡◌, refl, sym, ap, ◌∙◌, List, [], ◌∷◌, ◌++◌, Option,
  arith, length, get_or, take, length-append,
}
use uzi_build.Kernel.{Filesys}
use uzi_build.Kernel.Bytes.{word_at, bytes_of_words, words}
use uzi_build.Format.{
  nfree_max, words_of_filesys, tail_words, filesys_of_bytes, word_of_ptr, table_bytes,
}
use uzi_build.Format.Table.{bytes_of_words-append, append_assoc}
use uzi_build.Format.Words.{AllWords, word_at-bytes, words-bytes_at}

-- A superblock whose numbers fit in 16 bits and whose lists have their length.
pub record IsSuper (at : ℕ) (f : Filesys) : Type 0 where
  pub mounted : f.s_mounted < 65536
  pub isize : f.s_isize < 65536
  pub fsize : f.s_fsize < 65536
  pub nfree : f.s_nfree < 65536
  pub free_room : length f.s_free ≡ 50
  pub free_words : AllWords f.s_free
  pub ninode : f.s_ninode < 65536
  pub inode_room : length f.s_inode ≡ 50
  pub inode_words : AllWords f.s_inode
  pub fmod : f.s_fmod < 65536
  pub time : f.s_time.t_time < 65536
  pub date : f.s_time.t_date < 65536
  pub tfree : f.s_tfree < 65536
  pub tinode : f.s_tinode < 65536
  pub mntpt : word_of_ptr at f.s_mntpt < 65536

AllWords-append : (us ws : List ℕ) → AllWords us → AllWords ws → AllWords (us ++ ws)
AllWords-append [] ws a b = b
AllWords-append (u ∷ us) ws (p, a) b = (p, AllWords-append us ws a b)

length-bytes_of_words : (ws : List ℕ) → length (bytes_of_words ws) ≡ 2 * length ws
length-bytes_of_words [] = refl
length-bytes_of_words (w ∷ ws) = let e = length-bytes_of_words ws in omega arith

get_or-right :
    (xs ys : List ℕ) (n i : ℕ) → length xs ≡ n → get_or (xs ++ ys) (n + i) 0 ≡ get_or ys i 0
get_or-right [] ys n i e = ap (λ j. get_or ys j 0) {x = n + i} {y = i} (omega arith)
get_or-right (x ∷ xs) ys zero i e = absurd (omega arith)
get_or-right (x ∷ xs) ys (suc n) i e =
    ap (λ j. get_or (x ∷ (xs ++ ys)) j 0) {x = suc n + i} {y = suc (n + i)} (omega arith)
    ∙ get_or-right xs ys n i (omega arith)

take-append :
    (n : ℕ) (xs ys : List ℕ) → length xs ≤ n → take n (xs ++ ys) ≡ xs ++ take (n - length xs) ys
take-append n [] ys p = ap (λ m. take m ys) {x = n} {y = n - 0} (omega arith)
take-append zero (x ∷ xs) ys p = absurd (omega arith)
take-append (suc n) (x ∷ xs) ys p =
    ap (λ l. x ∷ l)
      (take-append n xs ys (omega arith)
        ∙ ap (λ m. xs ++ take m ys) {x = n - length xs} {y = suc n - suc (length xs)} (omega arith))

-- Words in the middle of others.
words-middle :
    (us ws vs rest : List ℕ)
    → AllWords ws
    → words (bytes_of_words (us ++ (ws ++ vs)) ++ rest) (length us) (length ws) ≡ ws
words-middle us ws vs rest all =
    rw
      (
        bytes_of_words-append us (ws ++ vs),
        bytes_of_words-append ws vs,
        append_assoc (bytes_of_words us) (bytes_of_words ws ++ bytes_of_words vs) rest,
        append_assoc (bytes_of_words ws) (bytes_of_words vs) rest,
      )
      (words-bytes_at us ws (bytes_of_words vs ++ rest) all)

-- What follows the list of free blocks, and the list of free inodes.
abbrev after_inodes : ℕ → Filesys → List ℕ
after_inodes at f =
    f.s_fmod
    ∷ f.s_time.t_time
    ∷ f.s_time.t_date
    ∷ f.s_tfree
    ∷ f.s_tinode
    ∷ word_of_ptr at f.s_mntpt
    ∷ []

abbrev after_free : ℕ → Filesys → List ℕ
after_free at f = f.s_ninode ∷ (f.s_inode ++ after_inodes at f)

super_words : (at : ℕ) (f : Filesys) → IsSuper at f → AllWords (words_of_filesys at f)
unfolding words_of_filesys tail_words
super_words at f s =
    let end : AllWords (after_inodes at f) =
      (s.fmod, (s.time, (s.date, (s.tfree, (s.tinode, (s.mntpt, tt)))))) in
    (
      s.mounted,
      (
        s.isize,
        (
          s.fsize,
          (
            s.nfree,
            AllWords-append f.s_free (after_free at f) s.free_words
                (s.ninode, AllWords-append f.s_inode (after_inodes at f) s.inode_words end),
          ),
        ),
      ),
    )

super_length : (at : ℕ) (f : Filesys) → IsSuper at f → length (words_of_filesys at f) ≡ 111
unfolding words_of_filesys tail_words
super_length at f s =
    let a = length-append f.s_free (after_free at f) in
    let b = length-append f.s_inode (after_inodes at f) in
    let free = s.free_room in let inode = s.inode_room in omega arith

word_lem :
    (at : ℕ) (f : Filesys) (rest : List ℕ) (i : ℕ)
    → IsSuper at f
    → i < 111
    → word_at (bytes_of_words (words_of_filesys at f) ++ rest) i
      ≡ get_or (words_of_filesys at f) i 0
word_lem at f rest i s p =
    let e = super_length at f s in
    word_at-bytes (words_of_filesys at f) rest i (super_words at f s) (omega arith)

-- A word after the list of free blocks.
word_behind :
    (at : ℕ) (f : Filesys) (rest : List ℕ) (j : ℕ)
    → IsSuper at f
    → j < 57
    → word_at (bytes_of_words (words_of_filesys at f) ++ rest) (54 + j)
      ≡ get_or (after_free at f) j 0
unfolding words_of_filesys tail_words
word_behind at f rest j s p =
    word_lem at f rest (54 + j) s (omega arith)
    ∙ get_or-right (f.s_mounted ∷ f.s_isize ∷ f.s_fsize ∷ f.s_nfree ∷ f.s_free) (after_free at f) 54
        j (let e = s.free_room in omega arith)

word_last :
    (at : ℕ) (f : Filesys) (rest : List ℕ) (j : ℕ)
    → IsSuper at f
    → j < 6
    → word_at (bytes_of_words (words_of_filesys at f) ++ rest) (105 + j)
      ≡ get_or (after_inodes at f) j 0
word_last at f rest j s p =
    ap (λ i. word_at (bytes_of_words (words_of_filesys at f) ++ rest) i) {x = 105 + j}
      {y = 54 + (51 + j)} (omega arith)
    ∙ word_behind at f rest (51 + j) s (omega arith)
    ∙ get_or-right (f.s_ninode ∷ f.s_inode) (after_inodes at f) 51 j
        (let e = s.inode_room in omega arith)

free_lem :
    (at : ℕ) (f : Filesys) (rest : List ℕ)
    → IsSuper at f
    → words (bytes_of_words (words_of_filesys at f) ++ rest) 4 nfree_max ≡ f.s_free
unfolding words_of_filesys tail_words
free_lem at f rest s =
    (rw (s.free_room) at (
      words-middle (f.s_mounted ∷ f.s_isize ∷ f.s_fsize ∷ f.s_nfree ∷ []) f.s_free (after_free at f)
        rest s.free_words))

inode_lem :
    (at : ℕ) (f : Filesys) (rest : List ℕ)
    → IsSuper at f
    → words (bytes_of_words (words_of_filesys at f) ++ rest) 55 nfree_max ≡ f.s_inode
unfolding words_of_filesys tail_words
inode_lem at f rest s =
    let us = f.s_mounted ∷ f.s_isize ∷ f.s_fsize ∷ f.s_nfree ∷ (f.s_free ++ (f.s_ninode ∷ [])) in
    let long : length us ≡ 55 =
      (let e = s.free_room in let a = length-append f.s_free (f.s_ninode ∷ []) in omega arith) in
    let split : us ++ (f.s_inode ++ after_inodes at f) ≡ words_of_filesys at f =
      ap (λ l. f.s_mounted ∷ f.s_isize ∷ f.s_fsize ∷ f.s_nfree ∷ l)
        (append_assoc f.s_free (f.s_ninode ∷ []) (f.s_inode ++ after_inodes at f)) in
    let e = words-middle us f.s_inode (after_inodes at f) rest s.inode_words in
    ap (λ l. words (bytes_of_words l ++ rest) 55 nfree_max) (sym split)
    ∙ (rw (long, s.inode_room) at e)

-- A superblock whose numbers fit in 16 bits is read back from the bytes written for it, whatever follows them;
-- a pointer to the inode that it is mounted on is no part of what is kept.
pub super_round_trip :
    (at at' : ℕ) (f : Filesys) (rest : List ℕ) (ino : Option ℕ)
    → IsSuper at f
    → (record (filesys_of_bytes at' (bytes_of_words (words_of_filesys at f) ++ rest)) {
      s_mntpt = ino;
    })
      ≡ record f { s_mntpt = ino }
unfolding filesys_of_bytes words_of_filesys tail_words
super_round_trip at at' f rest ino s =
    rw
      (
        word_lem at f rest 0 s (omega arith),
        word_lem at f rest 1 s (omega arith),
        word_lem at f rest 2 s (omega arith),
        word_lem at f rest 3 s (omega arith),
        free_lem at f rest s,
        word_behind at f rest 0 s (omega arith),
        inode_lem at f rest s,
        word_last at f rest 0 s (omega arith),
        word_last at f rest 1 s (omega arith),
        word_last at f rest 2 s (omega arith),
        word_last at f rest 3 s (omega arith),
        word_last at f rest 4 s (omega arith),
      )
      refl

-- The block that is written for the first entry of a table.
pub super_block_lem :
    (at at' : ℕ) (f : Filesys) (fs : List Filesys) (beyond : List ℕ) (ino : Option ℕ)
    → IsSuper at f
    → (record (filesys_of_bytes at' (take 512 (table_bytes at (f ∷ fs) beyond))) { s_mntpt = ino })
      ≡ record f { s_mntpt = ino }
unfolding table_bytes
super_block_lem at at' f fs beyond ino s =
    let w = bytes_of_words (words_of_filesys at f) in
    let a = super_length at f s in
    let b = length-bytes_of_words (words_of_filesys at f) in
    let e = take-append 512 w (table_bytes at fs beyond) (omega arith) in
    ap (λ l. record (filesys_of_bytes at' l) { s_mntpt = ino }) e
    ∙ super_round_trip at at' f (take (512 - length w) (table_bytes at fs beyond)) ino s
