-- ===== src/Format.antt =====
-- The on-disk structures of uzi-nes-port/include/unix.h as bytes: `struct dinode`, 64 bytes, of which a
-- block holds eight, and `struct filesys`, 222 bytes.
pub mod RoundTrip
pub mod Words
pub mod Splice
pub mod Table
pub mod Super
use uzi_build.Prelude.{
  ℕ, zero, suc, ◌+◌, ◌*◌, ◌-◌, ◌%◌, ◌/◌, List, [], ◌∷◌, ◌++◌, Option, none, some, ltb, ◌==◌, ◌&&◌,
  if◌then◌else◌, take, drop, map,
}
use uzi_build.Kernel.{Kernel, Time, Off, Dinode, Filesys}
use uzi_build.Kernel.Bytes.{word_at, bytes_of_words, words}

abbrev pub dinode_size : ℕ
dinode_size = 64

abbrev pub cinode_size : ℕ
cinode_size = 72

abbrev pub naddr : ℕ
naddr = 20

abbrev pub nfree_max : ℕ
nfree_max = 50

unfoldable pub words_of_dinode : Dinode → List ℕ
words_of_dinode d =
    d.i_mode ∷ d.i_nlink ∷ d.i_uid ∷ d.i_gid ∷ d.i_size.o_blkno ∷ d.i_size.o_offset
    ∷ d.i_atime.t_time ∷ d.i_atime.t_date ∷ d.i_mtime.t_time ∷ d.i_mtime.t_date ∷ d.i_ctime.t_time
    ∷ d.i_ctime.t_date ∷ d.i_addr

pub dinode_of_bytes : List ℕ → Dinode
dinode_of_bytes b = record {
  i_mode = word_at b 0;
  i_nlink = word_at b 1;
  i_uid = word_at b 2;
  i_gid = word_at b 3;
  i_size = record { o_blkno = word_at b 4; o_offset = word_at b 5 };
  i_atime = record { t_time = word_at b 6; t_date = word_at b 7 };
  i_mtime = record { t_time = word_at b 8; t_date = word_at b 9 };
  i_ctime = record { t_time = word_at b 10; t_date = word_at b 11 };
  i_addr = words b 12 naddr;
}

-- `buf[ino & 7]`, and the block with it replaced.
abbrev pub dinode_at : List ℕ → ℕ → Dinode
dinode_at block ino = dinode_of_bytes (drop (dinode_size * (ino % 8)) block)

abbrev pub put_dinode : List ℕ → ℕ → Dinode → List ℕ
put_dinode block ino d =
    take (dinode_size * (ino % 8)) block
    ++ (bytes_of_words (words_of_dinode d) ++ drop (dinode_size * (ino % 8) + dinode_size) block)

-- A pointer into the inode table as a word, and a word as such a pointer where it is one.
abbrev pub word_of_ptr : ℕ → Option ℕ → ℕ
word_of_ptr at none = 0
word_of_ptr at (some i) = at + cinode_size * i

abbrev pub ptr_of_word : ℕ → ℕ → Option ℕ
ptr_of_word at w =
    if ltb w at
    then none
    else if (w - at) % cinode_size == 0 && ltb ((w - at) / cinode_size) 20
    then some ((w - at) / cinode_size)
    else none

-- The words from `s_nfree` on.
unfoldable pub tail_words : ℕ → Filesys → List ℕ
tail_words at f =
    f.s_nfree
    ∷ (f.s_free
        ++ (f.s_ninode
            ∷ (f.s_inode
                ++ (f.s_fmod
                    ∷ f.s_time.t_time
                    ∷ f.s_time.t_date
                    ∷ f.s_tfree
                    ∷ f.s_tinode
                    ∷ word_of_ptr at f.s_mntpt
                    ∷ []))))

unfoldable pub words_of_filesys : ℕ → Filesys → List ℕ
words_of_filesys at f = f.s_mounted ∷ f.s_isize ∷ f.s_fsize ∷ tail_words at f

unfoldable pub filesys_of_bytes : ℕ → List ℕ → Filesys
filesys_of_bytes at b = record {
  s_mounted = word_at b 0;
  s_isize = word_at b 1;
  s_fsize = word_at b 2;
  s_nfree = word_at b 3;
  s_free = words b 4 nfree_max;
  s_ninode = word_at b 54;
  s_inode = words b 55 nfree_max;
  s_fmod = word_at b 105;
  s_time = record { t_time = word_at b 106; t_date = word_at b 107 };
  s_tfree = word_at b 108;
  s_tinode = word_at b 109;
  s_mntpt = ptr_of_word at (word_at b 110);
}

-- The bytes of memory from entry `dev` of the mount table on.
unfoldable pub table_bytes : ℕ → List Filesys → List ℕ → List ℕ
table_bytes at [] beyond = beyond
table_bytes at (f ∷ fs) beyond = bytes_of_words (words_of_filesys at f) ++ table_bytes at fs beyond
