-- ===== src/Tests/Disk.antt =====
-- A kernel state with a directory in block 12 of device 0, whose first entry is the file `a`, inode 3, and with
-- that file in block 13.
use uzi_build.Prelude.{
  ℕ, zero, suc, ◌≡◌, refl, sym, false, inl, inr, List, [], ◌∷◌, some, arith, replicate, ◌==◌,
  if◌then◌else◌, get_elem?, Bool-cases,
}
use uzi_build.Kernel.{Kernel, Cinode, Dinode, Oft}
use uzi_build.Buffer.{bfind}
use uzi_build.Buffer.Evict.{PoolCoherent}
use uzi_build.FreeList.Super.{Quiet}
use uzi_build.Inode.Table.{cmagic}
use uzi_build.Transfer.Rounds.{IsWhole}
use uzi_build.Transfer.Writing.{HasBlocks}
use uzi_build.Tests.Sample.{noon, user, buffer, sample}

abbrev pub dir_bytes : List ℕ
dir_bytes = 3 ∷ 0 ∷ 97 ∷ replicate 509 0

abbrev pub file_bytes : List ℕ
file_bytes = 104 ∷ 105 ∷ 33 ∷ replicate 509 0

abbrev pub blocks : ℕ → ℕ → List ℕ
blocks d n = if n == 12 then dir_bytes else if n == 13 then file_bytes else replicate 512 0

abbrev pub dinode : ℕ → ℕ → ℕ → ℕ → Dinode
dinode mode addr blkno offset = record {
  i_mode = mode;
  i_nlink = 1;
  i_uid = 0;
  i_gid = 0;
  i_size = record { o_blkno = blkno; o_offset = offset };
  i_atime = noon;
  i_mtime = noon;
  i_ctime = noon;
  i_addr = addr ∷ replicate 19 0;
}

abbrev pub cinode : ℕ → Dinode → Cinode
cinode num node = record {
  c_magic = cmagic;
  c_dev = 0;
  c_num = num;
  c_node = node;
  c_refs = 1;
  c_dirty = 0;
}

abbrev pub dir : Cinode
dir = cinode 1 (dinode 0x41ff 12 1 0)

abbrev pub file : Cinode
file = cinode 3 (dinode 0x81ff 13 0 100)

abbrev pub opened : Oft
opened = record {
  o_ptr = record { o_blkno = 0; o_offset = 1 };
  o_inode = some 1;
  o_access = 0;
  o_refs = 1;
}

abbrev pub disk_kernel : Kernel
disk_kernel = record sample {
  disk = blocks;
  fault = λ d n. false;
  i_tab = dir ∷ file ∷ [];
  of_tab = opened ∷ [];
  udata = record user {
    u_files = 0 ∷ replicate 9 255;
    u_count = 2;
    u_offset = record { o_blkno = 0; o_offset = 1 };
  };
}

coherent : PoolCoherent disk_kernel
unfolding bfind
coherent = (
  record { agrees = λ p q r. refl; owned = λ p. omega arith; flag = omega arith },
  λ p. refl,
  (record { agrees = λ p q r. refl; owned = λ p. omega arith; flag = omega arith }, λ p. refl, tt),
)

pub disk_kernel-Quiet : Quiet disk_kernel 0
disk_kernel-Quiet n = record {
  coherent = coherent;
  no_fault = λ d m. refl;
  device = omega arith;
  spare = 0;
  spare_buf = buffer 1 3;
  spare_at = refl;
  spare_idle = refl;
  released = λ i b h p. idle i b h;
}
  where
    idle : (i : ℕ) (b : _) → get_elem? (disk_kernel.bufpool) i ≡ some b → b.bf_busy ≡ 0
    idle zero b h = let e : buffer 1 3 ≡ b = cc in rw (sym e) refl
    idle (suc zero) b h = let e : buffer 5 2 ≡ b = cc in rw (sym e) refl
    idle (suc (suc i)) b h = cc

pub disk_kernel-IsWhole : IsWhole disk_kernel 0
disk_kernel-IsWhole n = elim (Bool-cases (1 == n)) [
  | inl a ↦ rw a refl
  | inr a ↦ elim (Bool-cases (5 == n)) [
    | inl b ↦ rw (a, b) refl
    | inr b ↦ elim (Bool-cases (n == 12)) [
      | inl c ↦ rw (a, b, c) refl
      | inr c ↦ elim (Bool-cases (n == 13)) [
        | inl d ↦ rw (a, b, c, d) refl
        | inr d ↦ rw (a, b, c, d) refl
      ]
    ]
  ]
]

pub file-HasBlocks : HasBlocks file 1
file-HasBlocks = record {
  direct = omega arith;
  present = λ j p e. let z : j ≡ 0 = omega arith in absurd (let f = rw z at e in omega arith);
  real = λ j p e. let z : j ≡ 0 = omega arith in absurd (let f = rw z at e in omega arith);
  apart = λ a b p q e. omega arith;
}

pub dir-HasBlocks : HasBlocks dir 1
dir-HasBlocks = record {
  direct = omega arith;
  present = λ j p e. let z : j ≡ 0 = omega arith in absurd (let f = rw z at e in omega arith);
  real = λ j p e. let z : j ≡ 0 = omega arith in absurd (let f = rw z at e in omega arith);
  apart = λ a b p q e. omega arith;
}
