-- ===== src/Prelude/Bits.antt =====
-- `|` and `&` of C at variables: what they do to one binary digit, and to a mask of one bit.
use Prim.Native.Nat.{
  ℕ, zero, suc, ◌+◌, ◌*◌, ◌/◌, ◌%◌, ◌^◌, ◌≤◌, ◌<◌, min, max, bit_and, bit_or, digits,
  bit_and-bitwise, bit_or-bitwise,
}
use mathlib.Core.Path.{◌≡◌, refl, ap, ◌∙◌}
use mathlib.Core.Logic.{◌≢◌}
use native.Mathlib.Nat.{pow-suc}
use native.Mathlib.Omega.{arith}

-- More fuel than the first number needs makes no difference to a digit by digit operation.
module _ (rest : ℕ → ℕ) (op : ℕ → ℕ → ℕ) where
  enough : (x y : ℕ) (m n : ℕ) → x ≤ n → x ≤ m → digits rest op n x y ≡ digits rest op m x y
  enough zero y zero zero p q = refl
  enough zero y (suc m) zero p q = refl
  enough zero y zero (suc n) p q = refl
  enough zero y (suc m) (suc n) p q = refl
  enough (suc x) y m zero p q = absurd (omega arith)
  enough (suc x) y zero (suc n) p q = absurd (omega arith)
  enough (suc x) y (suc m) (suc n) p q =
      ap (λ t. t * 2 + op (suc x % 2) (y % 2))
        (enough (suc x / 2) (y / 2) m n (omega arith) (omega arith))

or_none : (y : ℕ) → bit_or 0 y ≡ y
or_none y = bit_or-bitwise 0 y

and_none : (y : ℕ) → bit_and 0 y ≡ 0
and_none y = bit_and-bitwise 0 y

-- The lowest digit, and the rest.
pub bit_or_digit : (x y : ℕ) → bit_or x y ≡ bit_or (x / 2) (y / 2) * 2 + max (x % 2) (y % 2)
bit_or_digit zero y = omega (arith, or_none y, or_none (y / 2))
bit_or_digit (suc x) y = omega (
  arith,
  bit_or-bitwise (suc x) y,
  bit_or-bitwise (suc x / 2) (y / 2),
  enough (λ t. t) max (suc x / 2) (y / 2) (suc x / 2) x (omega arith) (omega arith),
)

pub bit_and_digit : (x y : ℕ) → bit_and x y ≡ bit_and (x / 2) (y / 2) * 2 + min (x % 2) (y % 2)
bit_and_digit zero y = omega (arith, and_none y, and_none (y / 2))
bit_and_digit (suc x) y = omega (
  arith,
  bit_and-bitwise (suc x) y,
  bit_and-bitwise (suc x / 2) (y / 2),
  enough (λ _. 0) min (suc x / 2) (y / 2) (suc x / 2) x (omega arith) (omega arith),
)

-- Binary digit `i` of a number.
abbrev pub digit : ℕ → ℕ → ℕ
digit x zero = x % 2
digit x (suc i) = digit (x / 2) i

pub digit-bit_or : (x y i : ℕ) → digit (bit_or x y) i ≡ max (digit x i) (digit y i)
digit-bit_or x y zero = omega (arith, bit_or_digit x y)
digit-bit_or x y (suc i) =
    let half : bit_or x y / 2 ≡ bit_or (x / 2) (y / 2) = omega (arith, bit_or_digit x y) in
    rw half (digit-bit_or (x / 2) (y / 2) i)

pub digit-bit_and : (x y i : ℕ) → digit (bit_and x y) i ≡ min (digit x i) (digit y i)
digit-bit_and x y zero = omega (arith, bit_and_digit x y)
digit-bit_and x y (suc i) =
    let half : bit_and x y / 2 ≡ bit_and (x / 2) (y / 2) = omega (arith, bit_and_digit x y) in
    rw half (digit-bit_and (x / 2) (y / 2) i)

-- A mask of one bit picks out a digit.
half_pow : (i : ℕ) → 2 ^ suc i / 2 ≡ 2 ^ i
half_pow i = omega (arith, pow-suc 2 i)

digit_zero : (i : ℕ) → digit 0 i ≡ 0
digit_zero zero = refl
digit_zero (suc i) = digit_zero i

drained : (n x : ℕ) → digits (λ _. 0) min n x 0 ≡ 0
drained zero zero = refl
drained zero (suc x) = refl
drained (suc n) zero = refl
drained (suc n) (suc x) = omega (arith, drained n (suc x / 2))

pub bit_and_none : (x : ℕ) → bit_and x 0 ≡ 0
bit_and_none x = bit_and-bitwise x 0 ∙ drained x x

pub digit_pow_self : (i : ℕ) → digit (2 ^ i) i ≡ 1
digit_pow_self zero = refl
digit_pow_self (suc i) = rw (half_pow i) (digit_pow_self i)

pub digit_pow_ne : (i j : ℕ) → i ≢ j → digit (2 ^ i) j ≡ 0
digit_pow_ne zero zero h = absurd (h refl)
digit_pow_ne zero (suc j) h = digit_zero j
digit_pow_ne (suc i) zero h = omega (arith, pow-suc 2 i)
digit_pow_ne (suc i) (suc j) h = rw (half_pow i) (digit_pow_ne i j (λ e. h (ap suc e)))

pub bit_and_pow : (x i : ℕ) → bit_and x (2 ^ i) ≡ digit x i * 2 ^ i
bit_and_pow x zero = omega (arith, bit_and_digit x 1, bit_and_none (x / 2))
bit_and_pow x (suc i) =
    let even : 2 ^ suc i % 2 ≡ 0 = omega (arith, pow-suc 2 i) in
    bit_and_digit x (2 ^ suc i)
    ∙ (rw (half_pow i, even, bit_and_pow (x / 2) i) (grind (arith, pow-suc 2 i)))

-- `|` of numbers whose digits do not overlap is their sum.
pub bit_or_shifted : (k x y : ℕ) → x < 2 ^ k → bit_or x (y * 2 ^ k) ≡ x + y * 2 ^ k
bit_or_shifted zero x y h =
    let none : x ≡ 0 = omega arith in rw none (omega (arith, or_none (y * 1)))
bit_or_shifted (suc k) x y h =
    let twice : y * 2 ^ suc k ≡ y * 2 ^ k * 2 =
      omega (arith, ap (λ (t : ℕ). y * t) (pow-suc 2 k)) in
    let half : y * 2 ^ k * 2 / 2 ≡ y * 2 ^ k = omega arith in
    let even : y * 2 ^ k * 2 % 2 ≡ 0 = omega arith in
    rw (twice, bit_or_digit x (y * 2 ^ k * 2), half, even)
      (omega (arith, bit_or_shifted k (x / 2) y (omega (arith, pow-suc 2 k))))

or_zero : (n x : ℕ) → x ≤ n → bit_or x 0 ≡ x
or_zero zero x p = let z : x ≡ 0 = omega arith in rw z (or_none 0)
or_zero (suc n) x p = omega (arith, bit_or_digit x 0, or_zero n (x / 2) (omega arith))

pub bit_or_above : (k x y : ℕ) → x < 2 ^ k → bit_or (y * 2 ^ k) x ≡ x + y * 2 ^ k
bit_or_above zero x y h =
    let none : x ≡ 0 = omega arith in rw none (omega (arith, or_zero (y * 1) (y * 1) (omega arith)))
bit_or_above (suc k) x y h =
    let twice : y * 2 ^ suc k ≡ y * 2 ^ k * 2 =
      omega (arith, ap (λ (t : ℕ). y * t) (pow-suc 2 k)) in
    let half : y * 2 ^ k * 2 / 2 ≡ y * 2 ^ k = omega arith in
    let even : y * 2 ^ k * 2 % 2 ≡ 0 = omega arith in
    rw (twice, bit_or_digit (y * 2 ^ k * 2) x, half, even)
      (omega (arith, bit_or_above k (x / 2) y (omega (arith, pow-suc 2 k))))

-- The two lowest and the eight lowest digits.
pub bit_and_three : (x : ℕ) → bit_and x 3 ≡ x % 4
bit_and_three x =
    omega (arith, bit_and_digit x 3, bit_and_digit (x / 2) 1, bit_and_none (x / 2 / 2))

pub bit_and_byte : (x : ℕ) → bit_and x 255 ≡ x % 256
bit_and_byte x =
    let low = four (x / 2 / 2 / 2 / 2) in
    omega (
      arith,
      low,
      bit_and_digit x 255,
      bit_and_digit (x / 2) 127,
      bit_and_digit (x / 2 / 2) 63,
      bit_and_digit (x / 2 / 2 / 2) 31,
    )
  where
    four : (y : ℕ) → bit_and y 15 ≡ y % 16
    four y = omega (arith, bit_and_three (y / 2 / 2), bit_and_digit y 15, bit_and_digit (y / 2) 7)
