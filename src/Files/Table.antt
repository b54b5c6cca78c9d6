-- ===== src/Files/Table.antt =====
-- Slots of the open file table and of the user's file table in uzi-nes-port/fs/filesys.c: `oft_alloc`,
-- `oft_deref`, `uf_alloc` and `getinode`.
pub mod Valid
use uzi_build.Prelude.{
  ℕ, suc, Bool, not, List, [], ◌∷◌, Option, none, some, ◌==◌, leb, if◌then◌else◌, get_elem?, set,
  sub8, bit_and, minus_one,
}
use uzi_build.Kernel.{
  Kernel, Oft, M, pure, stop, modify, entry, set_error, ◌>>=◌, ◌>>◌, bad_desc_table, bad_oft,
}
use uzi_build.Inode.Table.{itabsize, magic}
use uzi_build.Inode.Blocks.{i_deref}
use mathlib.Core.Option

abbrev pub oftsize : ℕ
oftsize = 15

abbrev pub uftsize : ℕ
uftsize = 10

abbrev pub enfile : ℕ
enfile = 23

abbrev pub ebadf : ℕ
ebadf = 9

abbrev pub oft_at : ℕ → M Oft
oft_at i k = entry (get_elem? k.of_tab i) k

abbrev pub put_oft : ℕ → Oft → Kernel → Kernel
put_oft i o k = record k { of_tab = set k.of_tab i o }

-- The first entry with no references.
pub free_oft : List Oft → Option ℕ
free_oft [] = none
free_oft (o ∷ os) = if o.o_refs == 0 then some 0 else Option.map suc (free_oft os)

abbrev pub claimed : Oft → Oft
claimed o = record o { o_refs = 1; o_inode = none }

pub oft_alloc : M ℕ
oft_alloc k = elim (free_oft k.of_tab) [
  | none ↦ ok_error k
  | some j ↦ (do o ← oft_at j; modify (put_oft j (claimed o)); pure j) k
]
  where
    ok_error : M ℕ
    ok_error = modify (set_error enfile) >> pure minus_one

-- `--o_refs` wraps in 8 bits.
pub oft_deref : ℕ → M (Unit {0})
oft_deref i = do
  o ← oft_at i
  let left = sub8 o.o_refs 1
  modify (put_oft i (record o { o_refs = left }))
  elim o.o_inode [
    | none ↦ pure tt
    | some ino ↦
        if not (left == 0)
        then pure tt
        else do i_deref ino; o' ← oft_at i; modify (put_oft i (record o' { o_inode = none }))
  ]

-- `u_files[j] & 0x80`
abbrev pub is_unused : ℕ → Bool
is_unused f = not (bit_and f 128 == 0)

pub free_file : List ℕ → Option ℕ
free_file [] = none
free_file (f ∷ fs) = if is_unused f then some 0 else Option.map suc (free_file fs)

pub uf_alloc : M ℕ
uf_alloc k = elim (free_file k.udata.u_files) [
  | none ↦ (modify (set_error enfile) >> pure minus_one) k
  | some j ↦ pure j k
]

-- An index that is negative is at least 32768. An `o_inode` is null or an index.
pub getinode : ℕ → M (Option ℕ)
getinode uindex = if leb uftsize uindex then bad else do
  f ← (λ k. entry (get_elem? k.udata.u_files uindex) k)
  if is_unused f then bad else if leb oftsize f then stop bad_desc_table else do
    o ← oft_at f
    elim o.o_inode [
      | none ↦ stop bad_oft
      | some i ↦ if leb itabsize i then stop bad_oft else magic i >> pure (some i)
    ]
  where
    bad : M (Option ℕ)
    bad = modify (set_error ebadf) >> pure none
