-- ===== src/Base/Results.antt =====
-- Go's (value, error) pair: a value, or the error that is not nil.
use mathlib.Core.Path.{◌≡◌, refl}
use Prim.Native.Nat.{ℕ, ◌≤◌, ◌<◌}
use mathlib.Core.List.{List}
use mathlib.Core.Option.{none, some}
use cypress.Base.Lists.{length, get_elem?, get_elem?-below, get_elem?-above}
use mathlib.Core.Logic.{◌⊎◌, inl, inr}

pub data Result {ℓ κ} (E : Type ℓ) (A : Type κ) : Type (ℓ ⊔ κ) where
  ok : A → Result E A
  err : E → Result E A

-- Run-time panics of Go. A function that may panic returns a `Result Panic`.
pub data Panic : Type 0 where
  index_out_of_range slice_bounds divide_by_zero nil_value : Panic
  already_assigned odd_arguments : Panic

infixl 5 ◌>>=◌ ◌>>◌
abbrev pub ◌>>=◌ {ℓ κ μ} :
    {E : Type ℓ} {A : Type κ} {B : Type μ} → Result E A → (A → Result E B) → Result E B
ok a >>= f = f a
err e >>= f = err e

abbrev pub ◌>>◌ {ℓ κ} : {E : Type ℓ} {B : Type κ} → Result E (Unit {0}) → Result E B → Result E B
m >> k = m >>= λ _. k

pub Result-cases {ℓ κ} :
    {E : Type ℓ} {A : Type κ} (r : Result E A) → ((a : A) × (r ≡ ok a)) ⊎ ((e : E) × (r ≡ err e))
Result-cases (ok a) = inl (a, refl)
Result-cases (err e) = inr (e, refl)

-- The element of a slice, or the run-time panic.
abbrev pub index {ℓ} : {A : Type ℓ} → List A → ℕ → Result Panic A
index xs i = elim (get_elem? xs i) [ some x ↦ ok x | none ↦ err index_out_of_range ]

module _ {ℓ} {A : Type ℓ} where
  pub index-ok : (xs : List A) (i : ℕ) {x : A} → get_elem? xs i ≡ some x → index xs i ≡ ok x
  index-ok xs i e = rw (e, index)

  pub index-err : (xs : List A) (i : ℕ) → length xs ≤ i → index xs i ≡ err index_out_of_range
  index-err xs i h = rw (get_elem?-above xs i h, index)

  pub index-below :
      (xs : List A) (i : ℕ)
      → i < length xs
      → (x : A) × (get_elem? xs i ≡ some x) × (index xs i ≡ ok x)
  index-below xs i h = let (x, e) = get_elem?-below xs i h in (x, e, index-ok xs i e)
