-- ===== src/Base/Decimal.antt =====
-- Decimal text of numbers: `strconv.FormatInt` and `%d`, and the value of a text of digits.
use Prim.Native.Nat.{ℕ, zero, suc, ◌+◌, ◌-◌, ◌*◌, ◌/◌, ◌%◌, ◌^◌, ◌≤◌, ◌<◌}
use mathlib.Core.Path.{◌≡◌, refl, ap}
use mathlib.Core.Bool.{Bool, true, ◌&&◌}
use mathlib.Core.List.{[], ◌∷◌, ◌++◌}
use native.Mathlib.Nat.{pow-suc}
use native.Mathlib.Omega.{arith}
use mathlib.Core.Logic.{inl, inr}
use cypress.Base.Tests.{if◌then◌else◌, ltb, leb, Bool-cases}
use cypress.Base.Lists.{All, length, replicate}
use cypress.Base.Text.{Text}
use cypress.Base.Int.{ℤ, pos, negsuc}

-- The digits of `n` in front of `tail`; `n` rounds are more than enough.
unfoldable pub decimal_onto : ℕ → ℕ → Text → Text
decimal_onto zero n tail = (n % 10 + 48) ∷ tail
decimal_onto (suc fuel) n tail =
    let more = decimal_onto fuel (n / 10) ((n % 10 + 48) ∷ tail) in
    if ltb n 10 then (n + 48) ∷ tail else more

unfoldable pub decimal : ℕ → Text
unfolding decimal_onto
decimal n = decimal_onto n n []

-- `strconv.FormatInt(x, 10)`
unfoldable pub format_int : ℤ → Text
unfolding decimal
format_int (pos n) = decimal n
format_int (negsuc n) = b'-' ∷ decimal (suc n)

abbrev pub IsDigit : ℕ → Type 0
IsDigit c = (48 ≤ c) × (c < 58)

-- The value of a text of digits, from what the digits before it came to.
unfoldable pub value_onto : ℕ → Text → ℕ
value_onto acc [] = acc
value_onto acc (c ∷ cs) = value_onto (10 * acc + (c - 48)) cs

unfoldable pub digits_value : Text → ℕ
unfolding value_onto
digits_value cs = value_onto 0 cs

unfoldable pub all_digits : Text → Bool
all_digits [] = true
all_digits (c ∷ cs) = leb 48 c && ltb c 58 && all_digits cs

pub all_digits-true : (cs : Text) → All IsDigit cs → all_digits cs ≡ true
unfolding all_digits
all_digits-true [] h = refl
all_digits-true (c ∷ cs) (h, hs) = ground (arith, all_digits-true cs hs)

decimal_onto-IsDigit :
    (fuel n : ℕ) (tail : Text) → All IsDigit tail → All IsDigit (decimal_onto fuel n tail)
unfolding decimal_onto
decimal_onto-IsDigit zero n tail h = (omega arith, h)
decimal_onto-IsDigit (suc fuel) n tail h =
    ground (arith, decimal_onto-IsDigit fuel (n / 10) ((n % 10 + 48) ∷ tail))

pub decimal-IsDigit : (n : ℕ) → All IsDigit (decimal n)
unfolding decimal
decimal-IsDigit n = decimal_onto-IsDigit n n [] tt

decimal_onto-value :
    (fuel n : ℕ) (tail : Text)
    → n ≤ fuel
    → digits_value (decimal_onto fuel n tail) ≡ value_onto n tail
unfolding decimal_onto digits_value
decimal_onto-value zero n tail h = let e : n ≡ 0 = omega arith in rw e
decimal_onto-value (suc fuel) n tail h =
    ground (arith, decimal_onto-value fuel (n / 10) ((n % 10 + 48) ∷ tail))

-- The digits of `n` have the value `n`.
pub digits_value-decimal : (n : ℕ) → digits_value (decimal n) ≡ n
unfolding decimal value_onto
digits_value-decimal n = decimal_onto-value n n [] (omega arith)

decimal_onto-length :
    (fuel n k : ℕ) (tail : Text)
    → n < 10 ^ suc k
    → (0 < length (decimal_onto fuel n tail))
      × (length (decimal_onto fuel n tail) ≤ suc k + length tail)
unfolding decimal_onto
decimal_onto-length zero n k tail h = omega arith
decimal_onto-length (suc fuel) n zero tail h = ground arith
decimal_onto-length (suc fuel) n (suc k) tail h =
    let shrunk : n / 10 < 10 ^ suc k = omega (arith, pow-suc 10 (suc k)) in
    ground (arith, decimal_onto-length fuel (n / 10) k ((n % 10 + 48) ∷ tail) shrunk)

-- A number below 10^(k+1) has from one to k+1 digits.
pub decimal-length :
    (n k : ℕ) → n < 10 ^ suc k → (0 < length (decimal n)) × (length (decimal n) ≤ suc k)
unfolding decimal
decimal-length n k h = ground (arith, decimal_onto-length n n k [] h)

pub value_onto-append :
    (acc : ℕ) (xs ys : Text) → value_onto acc (xs ++ ys) ≡ value_onto (value_onto acc xs) ys
unfolding value_onto
value_onto-append acc [] ys = refl
value_onto-append acc (x ∷ xs) ys = value_onto-append (10 * acc + (x - 48)) xs ys

pub value_onto_zeros : (k acc : ℕ) → value_onto acc (replicate k 48) ≡ acc * 10 ^ k
unfolding value_onto
value_onto_zeros zero acc = omega arith
value_onto_zeros (suc k) acc =
    omega (arith, value_onto_zeros k (10 * acc + (48 - 48)), ap (λ (t : ℕ). acc * t) (pow-suc 10 k))

decimal_onto-cons :
    (fuel n : ℕ) (tail : Text) → (c : ℕ) × (cs : Text) × (decimal_onto fuel n tail ≡ c ∷ cs)
unfolding decimal_onto
decimal_onto-cons zero n tail = (n % 10 + 48, tail, refl)
decimal_onto-cons (suc fuel) n tail =
    let (c, cs, e) = decimal_onto-cons fuel (n / 10) ((n % 10 + 48) ∷ tail) in
    elim (Bool-cases (ltb n 10)) [
      | inl few ↦ (n + 48, tail, rw few refl)
      | inr many ↦ (c, cs, rw many e)
    ]

pub decimal-cons : (n : ℕ) → (c : ℕ) × (cs : Text) × (decimal n ≡ c ∷ cs)
unfolding decimal
decimal-cons n = decimal_onto-cons n n []
