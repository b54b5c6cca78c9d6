-- ===== src/Files/Offset.antt =====
-- File positions of uzi-nes-port/kernel/scall1.c: `min`, `psize`, `addoff`, and the loop of `_seek`.
-- An `int` is its 16-bit pattern.
pub mod Position
use uzi_build.Prelude.{
  ℕ, zero, suc, ◌+◌, ◌-◌, ◌*◌, ◌/◌, ◌%◌, ◌==◌, ltb, leb, if◌then◌else◌, add16, sub16, signed_lt,
}
use uzi_build.Kernel.{Off}

unfoldable pub min_int : ℕ → ℕ → ℕ
min_int a b = if signed_lt a b then a else b

unfoldable pub psize : Off → ℕ
psize size = add16 (512 * size.o_blkno % 65536) size.o_offset

-- `n / 512` for the pattern of a signed `n` that is not negative, or is the least.
abbrev quot : ℕ → ℕ
quot n = if n == 32768 then 65472 else n / 512

abbrev forward : ℕ → Off → Off
forward amount o =
    let off = add16 o.o_offset (amount % 512) in
    if signed_lt off 512
    then record { o_blkno = add16 o.o_blkno (amount / 512); o_offset = off }
    else record { o_blkno = add16 (add16 o.o_blkno 1) (amount / 512); o_offset = sub16 off 512 }

abbrev backward : ℕ → Off → Off
backward amount o =
    let off = sub16 o.o_offset (amount % 512) in
    if signed_lt off 0
    then record { o_blkno = sub16 (sub16 o.o_blkno 1) (quot amount); o_offset = add16 off 512 }
    else record { o_blkno = sub16 o.o_blkno (quot amount); o_offset = off }

pub addoff : Off → ℕ → Off
addoff o amount = if ltb amount 32768 then forward amount o else backward (sub16 0 amount) o

-- The loop at the end of `_seek`: 128 rounds bring any offset below 512.
pub settle : ℕ → Off → Off
settle zero o = o
settle (suc n) o =
    if ltb o.o_offset 512
    then o
    else settle n (record { o_blkno = add16 o.o_blkno 1; o_offset = o.o_offset - 512 })
