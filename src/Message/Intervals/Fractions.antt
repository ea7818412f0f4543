-- ===== src/Message/Intervals/Fractions.antt =====
-- The fraction of a second as text, and back.
use native.Mathlib.Nat.{pow-suc}
use cypress.Base.{
  ℕ, zero, suc, ◌+◌, ◌-◌, ◌*◌, ◌^◌, ◌≤◌, ◌<◌, ◌≡◌, refl, sym, ap, ◌∙◌, List, [], ◌∷◌, ◌++◌, arith,
  length, length-append, length-reverse, reverse, reverse-append, reverse-cons, replicate, All,
  Bool-cases, inl, inr, ◌⊎◌, ◌==◌, ◌≢◌, reverse-reverse, length-replicate, subst,
}
use cypress.Base.Text.{Text}
use cypress.Base.Decimal.{
  decimal, digits_value, all_digits-true, IsDigit, decimal-IsDigit, decimal-length,
  digits_value-decimal, value_onto, value_onto-append, value_onto_zeros,
}
use cypress.Base.Results.{ok, err, index_out_of_range}
use cypress.Base.Results.{index}
use cypress.Message.Intervals.{
  pad_zeros, strip_zeros, subsecond, c_to_nano, parse_int32, parse_subsecond,
}

pad_zeros-length :
    (rounds : ℕ) (str : Text)
    → length str ≤ 9
    → 9 ≤ length str + rounds
    → length (pad_zeros rounds str) ≡ 9
unfolding pad_zeros
pad_zeros-length zero str h k = omega arith
pad_zeros-length (suc rounds) str h k =
    ground (arith, pad_zeros-length rounds (48 ∷ str), pad_zeros-length rounds str)

leading_zero : (str : Text) → digits_value (48 ∷ str) ≡ digits_value str
unfolding digits_value value_onto
leading_zero str = refl

pad_zeros-value : (rounds : ℕ) (str : Text) → digits_value (pad_zeros rounds str) ≡ digits_value str
unfolding pad_zeros
pad_zeros-value zero str = refl
pad_zeros-value (suc rounds) str =
    ground (arith, leading_zero str, pad_zeros-value rounds (48 ∷ str), pad_zeros-value rounds str)

pad_zeros-IsDigit : (rounds : ℕ) (str : Text) → All IsDigit str → All IsDigit (pad_zeros rounds str)
unfolding pad_zeros
pad_zeros-IsDigit zero str h = h
pad_zeros-IsDigit (suc rounds) str h =
    ground (arith, pad_zeros-IsDigit rounds (48 ∷ str), pad_zeros-IsDigit rounds str h)

replicate_snoc : (k c : ℕ) → replicate k c ++ c ∷ [] ≡ c ∷ replicate k c
replicate_snoc zero c = refl
replicate_snoc (suc k) c = ap (λ (t : Text). c ∷ t) (replicate_snoc k c)

reverse-replicate : (k c : ℕ) → reverse (replicate k c) ≡ replicate k c
reverse-replicate zero c = refl
reverse-replicate (suc k) c =
    reverse-cons c (replicate k c) ∙ rw (reverse-replicate k c) (replicate_snoc k c)

-- Stripping either runs off the text, which is all zeros, or leaves what stood before the zeros.
abbrev Stripped : Text → Type 0
Stripped r =
    (k c : ℕ) × (cs : Text) × (strip_zeros r ≡ ok (c ∷ cs)) × (r ≡ replicate k 48 ++ c ∷ cs)

strip_zeros-cases :
    (r : Text)
    → ((strip_zeros r ≡ err index_out_of_range) × (r ≡ replicate (length r) 48)) ⊎ Stripped r
unfolding strip_zeros
strip_zeros-cases [] = inl (refl, refl)
strip_zeros-cases (c ∷ cs) = elim (Bool-cases (c == 48)) [
  | inl zero_byte ↦ elim (strip_zeros-cases cs) [
    | inl (e, z) ↦ inl (ground arith, ground arith)
    | inr (k, d, ds, e, z) ↦ inr (suc k, d, ds, ground arith, ground arith)
  ]
  | inr other ↦ inr (0, c, cs, ground arith, refl)
]

padded : ℕ → Text
padded s = pad_zeros 9 (decimal s)

padded_facts :
    (s : ℕ)
    → s < 1_000_000_000
    → (length (padded s) ≡ 9) × (digits_value (padded s) ≡ s) × All IsDigit (padded s)
unfolding padded
padded_facts s h =
    let (some_digit, few) = decimal-length s 8 h in
    (
      pad_zeros-length 9 (decimal s) few (omega arith),
      pad_zeros-value 9 (decimal s) ∙ digits_value-decimal s,
      pad_zeros-IsDigit 9 (decimal s) (decimal-IsDigit s),
    )

-- A whole number of seconds has no last nonzero digit to stop at: `subsecond` panics.
pub subsecond_zero : subsecond 0 ≡ err index_out_of_range
unfolding subsecond pad_zeros strip_zeros decimal
subsecond_zero = refl

scale_at : (n : ℕ) → n < 9 → index c_to_nano n ≡ ok (10 ^ (8 - n))
scale_at zero h = refl
scale_at (suc zero) h = refl
scale_at (suc (suc zero)) h = refl
scale_at (suc (suc (suc zero))) h = refl
scale_at (suc (suc (suc (suc zero)))) h = refl
scale_at (suc (suc (suc (suc (suc zero))))) h = refl
scale_at (suc (suc (suc (suc (suc (suc zero)))))) h = refl
scale_at (suc (suc (suc (suc (suc (suc (suc zero))))))) h = refl
scale_at (suc (suc (suc (suc (suc (suc (suc (suc zero)))))))) h = refl
scale_at (suc (suc (suc (suc (suc (suc (suc (suc (suc n))))))))) h = absurd (omega arith)

All-append_left : {A : Type 0} (P : A → Type 0) (xs ys : List A) → All P (xs ++ ys) → All P xs
All-append_left P [] ys h = tt
All-append_left P (x ∷ xs) ys h = (h.0, All-append_left P xs ys h.1)

power_pos : (k : ℕ) → 0 < 10 ^ k
power_pos zero = omega arith
power_pos (suc k) = omega (arith, pow-suc 10 k, power_pos k)

le-mul_power : (a k : ℕ) → a ≤ a * 10 ^ k
le-mul_power a k = let p = power_pos k in grind arith

zeros_value : (n : ℕ) → digits_value (replicate n 48) ≡ 0
unfolding digits_value
zeros_value n = omega (arith, value_onto_zeros n 0)

append_zeros-value :
    (str : Text) (k : ℕ) → digits_value (str ++ replicate k 48) ≡ digits_value str * 10 ^ k
unfolding digits_value
append_zeros-value str k = value_onto-append 0 str (replicate k 48) ∙ value_onto_zeros k _

module _ (s : ℕ) (pos : 0 < s) (h : s < 1_000_000_000) where
  not_all_zeros : reverse (padded s) ≢ replicate (length (reverse (padded s))) 48
  not_all_zeros e =
      let (l, v, d) = padded_facts s h in
      let n : ℕ = length (reverse (padded s)) in
      let back : padded s ≡ replicate n 48 =
        sym (reverse-reverse (padded s)) ∙ ap reverse e ∙ reverse-replicate n 48 in
      absurd (omega (arith, v, ap digits_value back, zeros_value n))

  -- What is left of the padded text, and how much was cut.
  cut_back :
      (k c : ℕ) (cs : Text)
      → reverse (padded s) ≡ replicate k 48 ++ c ∷ cs
      → padded s ≡ reverse (c ∷ cs) ++ replicate k 48
  cut_back k c cs e =
      sym (reverse-reverse (padded s))
      ∙ ap reverse e
      ∙ reverse-append (replicate k 48) (c ∷ cs)
      ∙ ap (λ (t : Text). reverse (c ∷ cs) ++ t) (reverse-replicate k 48)

  parse_cut :
      (k : ℕ) (str : Text)
      → 0 < length str
      → padded s ≡ str ++ replicate k 48
      → (parse_subsecond str ≡ ok s) × (length str ≤ 9)
  unfolding parse_subsecond parse_int32
  parse_cut k str some_digit e =
      let (l, v, d) = padded_facts s h in
      let digits = all_digits-true str (All-append_left IsDigit str (replicate k 48) (rw e at d)) in
      let size : length str + k ≡ 9 = omega (
        arith,
        l,
        ap length e,
        length-append str (replicate k 48),
        length-replicate {A = ℕ} k 48,
      ) in
      let val : digits_value str * 10 ^ k ≡ s =
        sym (append_zeros-value str k) ∙ ap digits_value (sym e) ∙ v in
      let small : digits_value str ≤ s = rw (← val) (le-mul_power (digits_value str) k) in
      let scale : index c_to_nano (length str - 1) ≡ ok (10 ^ k) =
        let exponent : k ≡ 8 - (length str - 1) = omega arith in
        rw exponent (scale_at (length str - 1) (omega arith)) in
      (ground (arith, digits, scale, val, small), omega arith)

  -- The text of a fraction of a second, for every number of nanoseconds from 1 to 999,999,999, is
  -- defined, has at most nine digits, and is read back by the key/value parser as that number.
  pub parse_subsecond-subsecond :
      (str : Text) × (subsecond s ≡ ok str) × (parse_subsecond str ≡ ok s) × (length str ≤ 9)
  parse_subsecond-subsecond = elim (strip_zeros-cases (reverse (padded s))) [
    | inl (e, z) ↦ absurd (not_all_zeros z)
    | inr (k, c, cs, e, z) ↦
        let some_digit : 0 < length (reverse (c ∷ cs)) = omega (arith, length-reverse (c ∷ cs)) in
        let (p, l) = parse_cut k (reverse (c ∷ cs)) some_digit (cut_back k c cs z) in
        (reverse (c ∷ cs), unfold subsecond padded in rw e refl, p, l)
  ]

  -- What `subsecond` writes are digits.
  pub subsecond-IsDigit : (str : Text) → subsecond s ≡ ok str → All IsDigit str
  subsecond-IsDigit str e = elim (strip_zeros-cases (reverse (padded s))) [
    | inl (f, z) ↦ absurd (not_all_zeros z)
    | inr (k, c, cs, f, z) ↦
        let (l, v, d) = padded_facts s h in
        let found : subsecond s ≡ ok (reverse (c ∷ cs)) = unfold subsecond padded in rw f refl in
        let same : reverse (c ∷ cs) ≡ str =
          ap (λ r. elim r [ ok x ↦ x | err q ↦ [] ]) (sym found ∙ e) in
        let digits : All IsDigit (reverse (c ∷ cs) ++ replicate k 48) =
          subst (All IsDigit) (cut_back k c cs z) d in
        subst (All IsDigit) same
          (All-append_left IsDigit (reverse (c ∷ cs)) (replicate k 48) digits)
  ]
