-- ===== src/Base/Bits.antt =====
-- `|` and `&` of machine words as arithmetic, where the operands share no digit or one is a mask.
use Prim.Native.Nat.{ℕ, zero, suc, ◌+◌, ◌*◌, ◌/◌, ◌%◌, ◌^◌, ◌≤◌, ◌<◌, max}
use Prim.Native.Nat.{bit_and, bit_or, digits, bit_or-bitwise}
use mathlib.Core.Path.{◌≡◌, refl, ap}
use mathlib.Core.Bool.{Bool, true, ◌&&◌}
use native.Mathlib.Omega.{arith}
use cypress.Base.Tests.{◌==◌}

abbrev or_digits : ℕ → ℕ → ℕ → ℕ
or_digits n a b = digits (λ b. b) max n a b

or_digits_fuel : (n m a b : ℕ) → a ≤ n → a ≤ m → or_digits n a b ≡ or_digits m a b
or_digits_fuel zero zero a b p q = refl
or_digits_fuel zero (suc m) zero b p q = refl
or_digits_fuel zero (suc m) (suc a) b p q = absurd (omega arith)
or_digits_fuel (suc n) zero zero b p q = refl
or_digits_fuel (suc n) zero (suc a) b p q = absurd (omega arith)
or_digits_fuel (suc n) (suc m) zero b p q = refl
or_digits_fuel (suc n) (suc m) (suc a) b p q =
    omega (arith, or_digits_fuel n m (suc a / 2) (b / 2) (omega arith) (omega arith))

pub zero-bit_or : (b : ℕ) → bit_or 0 b ≡ b
zero-bit_or b = bit_or-bitwise 0 b

pub bit_or_step : (a b : ℕ) → bit_or a b ≡ bit_or (a / 2) (b / 2) * 2 + max (a % 2) (b % 2)
bit_or_step zero b = omega (arith, zero-bit_or b, zero-bit_or (b / 2))
bit_or_step (suc a) b = omega (
  arith,
  bit_or-bitwise (suc a) b,
  bit_or-bitwise (suc a / 2) (b / 2),
  or_digits_fuel a (suc a / 2) (suc a / 2) (b / 2) (omega arith) (omega arith),
)

pub pow_double : (s : ℕ) → 2 ^ suc s ≡ 2 * 2 ^ s
pow_double s = omega arith

scaled_halves : (s y : ℕ) → (y * 2 ^ suc s / 2 ≡ y * 2 ^ s) × (y * 2 ^ suc s % 2 ≡ 0)
scaled_halves s y =
    let e : y * 2 ^ suc s ≡ 2 * (y * 2 ^ s) = omega (arith, ap (λ (t : ℕ). y * t) (pow_double s)) in
    (omega (arith, e), omega (arith, e))

-- Digits below the place `s` and digits from it on do not meet: `|` is their sum.
pub bit_or_disjoint : (s x y : ℕ) → x < 2 ^ s → bit_or x (y * 2 ^ s) ≡ x + y * 2 ^ s
bit_or_disjoint zero x y h =
    let e : x ≡ 0 = omega arith in rw e (omega (arith, zero-bit_or (y * 1)))
bit_or_disjoint (suc s) x y h =
    let (half, rest) = scaled_halves s y in
    let step = rw half at (bit_or_step x (y * 2 ^ suc s)) in
    omega (
      arith,
      step,
      rest,
      bit_or_disjoint s (x / 2) y (omega (arith, pow_double s)),
      ap (λ (t : ℕ). y * t) (pow_double s),
    )

-- Every value below `n` agrees on two functions, by evaluation.
agree_below : (ℕ → ℕ) → (ℕ → ℕ) → ℕ → Bool
agree_below f g zero = true
agree_below f g (suc n) = f n == g n && agree_below f g n

agree_below→eq : (f g : ℕ → ℕ) (n : ℕ) → agree_below f g n ≡ true → (i : ℕ) → i < n → f i ≡ g i
unfolding agree_below
agree_below→eq f g zero e i h = absurd (omega arith)
agree_below→eq f g (suc n) e i h = ground (arith, agree_below→eq f g n (ground arith) i)

pub low_bits : (b : ℕ) → b < 256 → bit_and b 0x7f ≡ b % 128
unfolding agree_below
low_bits = agree_below→eq _ _ 256 refl

pub set_top_bit : (b : ℕ) → b < 256 → bit_or b 0x80 ≡ b % 128 + 128
unfolding agree_below
set_top_bit = agree_below→eq _ _ 256 refl
