-- ===== src/Files/Offset/Position.antt =====
-- The byte position that a file offset of uzi-nes-port/kernel/scall1.c stands for, and how `addoff` and
-- `_seek` move it.
use uzi_build.Prelude.{
  ℕ, zero, suc, ◌+◌, ◌-◌, ◌*◌, ◌<◌, ◌≤◌, ◌≡◌, refl, inl, inr, ltb, add16, Bool-cases, arith, ◌∙◌,
}
use uzi_build.Kernel.{Off}
use uzi_build.Files.Offset.{addoff, settle}

abbrev pub position : Off → ℕ
position o = 512 * o.o_blkno + o.o_offset

-- An offset within its block is moved forward by `addoff`, as far as 16-bit block numbers reach: the
-- position grows by the amount, and the offset stays within its block.
pub addoff_forward :
    (o : Off) (amount : ℕ)
    → o.o_offset < 512
    → amount < 32768
    → position o + amount < 33554432
    → (position (addoff o amount) ≡ position o + amount) × ((addoff o amount).o_offset < 512)
unfolding addoff
addoff_forward o amount small pos fits = ground arith

-- An offset within its block, with a 16-bit block number, is moved backward by `addoff` for a
-- negative amount, of which `amount` is the absolute value below 32768, as far as the beginning of
-- the file: the position shrinks by that value, and the offset stays within its block.
pub addoff_backward :
    (o : Off) (amount : ℕ)
    → o.o_offset < 512
    → o.o_blkno < 65536
    → 0 < amount
    → amount < 32768
    → amount ≤ position o
    → (position (addoff o (65536 - amount)) + amount ≡ position o)
      × ((addoff o (65536 - amount)).o_offset < 512)
unfolding addoff
addoff_backward o amount small fits pos neg room = ground arith

-- With enough rounds, the loop of `_seek` leaves an offset within its block and the position as it was, as
-- far as 16-bit block numbers reach.
pub settle_position :
    (n : ℕ) (o : Off)
    → o.o_offset < 512 * suc n
    → position o < 33554432
    → (position (settle n o) ≡ position o) × ((settle n o).o_offset < 512)
unfolding settle
settle_position zero o fuel fits = (refl, omega arith)
settle_position (suc n) o fuel fits = elim (Bool-cases (ltb o.o_offset 512)) [
  | inl e ↦ rw e (refl, ground arith)
  | inr e ↦
      let far : 512 ≤ o.o_offset = ground arith in
      let o' : Off = record { o_blkno = add16 o.o_blkno 1; o_offset = o.o_offset - 512 } in
      let (same, within) = settle_position n o' (omega arith) (omega arith) in
      rw e (same ∙ omega arith, within)
]
