-- ===== src/Prelude/Words.antt =====
-- C integers as native numbers: a 16-bit `int`, `unsigned` or pointer is its bit pattern below
-- 2 ^ 16, and a `char` (unsigned in cc65) a number below 2 ^ 8.
use Prim.Native.Nat.{ℕ, ◌+◌, ◌-◌, ◌%◌}
use mathlib.Core.Bool.{Bool}
use uzi_build.Prelude.Tests.{ltb}

abbrev pub add16 : ℕ → ℕ → ℕ
add16 a b = (a + b) % 65536

abbrev pub sub16 : ℕ → ℕ → ℕ
sub16 a b = (a + 65536 - b) % 65536

abbrev pub add8 : ℕ → ℕ → ℕ
add8 a b = (a + b) % 256

abbrev pub sub8 : ℕ → ℕ → ℕ
sub8 a b = (a + 256 - b) % 256

-- `a < b` between two signed 16-bit patterns.
abbrev pub signed_lt : ℕ → ℕ → Bool
signed_lt a b = ltb ((a + 32768) % 65536) ((b + 32768) % 65536)

-- -1 as a 16-bit pattern.
abbrev pub minus_one : ℕ
minus_one = 65535
