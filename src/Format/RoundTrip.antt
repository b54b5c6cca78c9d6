-- ===== src/Format/RoundTrip.antt =====
-- An inode written into its block by `wr_inode` of uzi-nes-port/fs/filesys.c and read back by `i_open`.
use uzi_build.Prelude.{
  ℕ, zero, suc, ◌+◌, ◌*◌, ◌%◌, ◌<◌, ◌≡◌, refl, ◌≢◌, ap, sym, ◌∙◌, List, [], ◌∷◌, ◌++◌, arith,
  length, get_or, take, drop, ltb, ltb→lt, true,
}
use mathlib.Core.Path.{subst}
use uzi_build.Kernel.{Dinode}
use uzi_build.Kernel.Bytes.{word_at, bytes_of_words, words}
use uzi_build.Format.{dinode_size, naddr, words_of_dinode, dinode_of_bytes, dinode_at, put_dinode}
use uzi_build.Format.Words.{AllWords, word_at-bytes, words-bytes_at, get_or-drop}
use uzi_build.Format.Splice.{splice, splice-other, drop-splice}

-- Twenty block addresses, and every field within 16 bits.
pub record IsDinode (d : Dinode) : Type 0 where
  pub addresses : length d.i_addr ≡ naddr
  pub fits : AllWords (words_of_dinode d)

-- An inode put together from words and addresses.
abbrev assemble : (ℕ → ℕ) → List ℕ → Dinode
assemble w addrs = record {
  i_mode = w 0;
  i_nlink = w 1;
  i_uid = w 2;
  i_gid = w 3;
  i_size = record { o_blkno = w 4; o_offset = w 5 };
  i_atime = record { t_time = w 6; t_date = w 7 };
  i_mtime = record { t_time = w 8; t_date = w 9 };
  i_ctime = record { t_time = w 10; t_date = w 11 };
  i_addr = addrs;
}

assemble-eq :
    (w v : ℕ → ℕ) (addrs bs : List ℕ)
    → ((i : ℕ) → i < 12 → w i ≡ v i)
    → addrs ≡ bs
    → assemble w addrs ≡ assemble v bs
assemble-eq w v addrs bs same e =
    let at = λ (i : ℕ) (p : ltb i 12 ≡ true). same i (ltb→lt i 12 p) in
    rw (
      e,
      at 0 refl,
      at 1 refl,
      at 2 refl,
      at 3 refl,
      at 4 refl,
      at 5 refl,
      at 6 refl,
      at 7 refl,
      at 8 refl,
      at 9 refl,
      at 10 refl,
      at 11 refl,
    )

addresses-bytes :
    (us addrs rest : List ℕ) (n : ℕ)
    → AllWords addrs
    → length addrs ≡ n
    → words (bytes_of_words us ++ (bytes_of_words addrs ++ rest)) (length us) n ≡ addrs
addresses-bytes us addrs rest n all e =
    subst (λ m. words (bytes_of_words us ++ (bytes_of_words addrs ++ rest)) (length us) m ≡ addrs) e
      (words-bytes_at us addrs rest all)

abbrev heads : Dinode → List ℕ
heads d =
    d.i_mode ∷ d.i_nlink ∷ d.i_uid ∷ d.i_gid ∷ d.i_size.o_blkno ∷ d.i_size.o_offset
    ∷ d.i_atime.t_time ∷ d.i_atime.t_date ∷ d.i_mtime.t_time ∷ d.i_mtime.t_date ∷ d.i_ctime.t_time
    ∷ d.i_ctime.t_date ∷ []

AllWords-tail : (us addrs : List ℕ) → AllWords (us ++ addrs) → AllWords addrs
AllWords-tail [] addrs h = h
AllWords-tail (u ∷ us) addrs (p, h) = AllWords-tail us addrs h

dinode_of_bytes-bytes :
    (d : Dinode) (rest : List ℕ)
    → IsDinode d
    → dinode_of_bytes (bytes_of_words (words_of_dinode d) ++ rest) ≡ d
unfolding dinode_of_bytes words_of_dinode
dinode_of_bytes-bytes d rest v =
    assemble-eq (word_at (bytes_of_words (words_of_dinode d) ++ rest))
      (λ i. get_or (words_of_dinode d) i 0)
      (words (bytes_of_words (words_of_dinode d) ++ rest) 12 20) d.i_addr
      (λ i p. word_at-bytes (words_of_dinode d) rest i v.fits (omega (arith, v.addresses)))
      (addresses-bytes (heads d) d.i_addr rest 20 (AllWords-tail (heads d) d.i_addr v.fits)
        v.addresses)

pub words-eq :
    (b c : List ℕ) (i n : ℕ)
    → ((j : ℕ) → j < 2 * (i + n) → get_or b j 0 ≡ get_or c j 0)
    → words b i n ≡ words c i n
words-eq b c i zero same = refl
words-eq b c i (suc n) same =
    let lo = same (2 * i) (omega arith) in
    let hi = same (2 * i + 1) (omega arith) in
    rw (lo, hi, words-eq b c (suc i) n (λ j p. same j (omega arith)))

-- Only the first 64 bytes matter.
dinode_of_bytes-eq :
    (b c : List ℕ)
    → ((i : ℕ) → i < dinode_size → get_or b i 0 ≡ get_or c i 0)
    → dinode_of_bytes b ≡ dinode_of_bytes c
unfolding dinode_of_bytes
dinode_of_bytes-eq b c same =
    assemble-eq (word_at b) (word_at c) (words b 12 20) (words c 12 20)
      (λ i p.
        let lo = same (2 * i) (omega arith) in
        let hi = same (2 * i + 1) (omega arith) in rw (lo, hi))
      (words-eq b c 12 20 (λ j p. same j (omega arith)))

length-bytes : (ws : List ℕ) → length (bytes_of_words ws) ≡ 2 * length ws
length-bytes [] = refl
length-bytes (w ∷ ws) = omega (arith, length-bytes ws)

put_dinode-splice :
    (block : List ℕ) (ino : ℕ) (d : Dinode)
    → IsDinode d
    → put_dinode block ino d
      ≡ splice (dinode_size * (ino % 8)) (bytes_of_words (words_of_dinode d)) block
unfolding words_of_dinode
put_dinode-splice block ino d v =
    let size : length (bytes_of_words (words_of_dinode d)) ≡ 64 =
      omega (arith, length-bytes (words_of_dinode d), v.addresses) in
    ap
      (λ m.
        take (64 * (ino % 8)) block
        ++ (bytes_of_words (words_of_dinode d) ++ drop (64 * (ino % 8) + m) block))
      (sym size)

-- In a block of 512 bytes, an inode with twenty addresses and fields within 16 bits that is written in
-- slot `ino & 7` is read back as it was, and an inode in another slot of the block is as before.
pub dinode_round_trip :
    (block : List ℕ) (ino other : ℕ) (d : Dinode)
    → length block ≡ 512
    → IsDinode d
    → ino % 8 ≢ other % 8
    → (dinode_at (put_dinode block ino d) ino ≡ d)
      × (dinode_at (put_dinode block ino d) other ≡ dinode_at block other)
unfolding words_of_dinode
dinode_round_trip block ino other d long v apart =
    let ds = bytes_of_words (words_of_dinode d) in
    let n = 64 * (ino % 8) in
    let size : length ds ≡ 64 = omega (arith, length-bytes (words_of_dinode d), v.addresses) in
    let is = put_dinode-splice block ino d v in
    (
      rw (is, drop-splice n ds block (omega arith))
          (dinode_of_bytes-bytes d (drop (n + length ds) block) v),
      (let m = 64 * (other % 8) in
          rw is (
            dinode_of_bytes-eq (drop m (splice n ds block)) (drop m block) (λ i p.
              get_or-drop (splice n ds block) m i 0
              ∙ splice-other n ds block (m + i) (omega arith) (omega arith)
              ∙ sym (get_or-drop block m i 0)))),
    )
