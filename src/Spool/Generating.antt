-- ===== src/Spool/Generating.antt =====
-- One call of a generator's `Generate`.
use native.Mathlib.Numerals.{add-one}
use cypress.Base.{
  ℕ, zero, suc, ◌+◌, ◌≤◌, ◌<◌, ◌≡◌, refl, ap, ◌∙◌, true, false, Option, none, some, List, [], ◌∷◌,
  ◌++◌, arith, ◌⊎◌, inl, inr, drop, dec_lt, length, get_elem?,
}
use cypress.Spool.{SpoolGenerator, generate}

drop_get :
    {A : Type 0} (xs : List A) (i : ℕ)
    → i < length xs
    → (x : A) × (get_elem? xs i ≡ some x) × (drop i xs ≡ x ∷ drop (suc i) xs)
drop_get [] i h = absurd (omega arith)
drop_get (x ∷ xs) zero h = (x, refl, refl)
drop_get (x ∷ xs) (suc i) h = drop_get xs i (omega arith)

drop_past : {A : Type 0} (xs : List A) (i : ℕ) → length xs ≤ i → drop i xs ≡ []
drop_past [] zero h = refl
drop_past [] (suc i) h = refl
drop_past (x ∷ xs) zero h = absurd (omega arith)
drop_past (x ∷ xs) (suc i) h = drop_past xs i (omega arith)

module _ {M : Type 0} where
  abbrev pub flat : List (List M) → List M
  flat [] = []
  flat (f ∷ fs) = f ++ flat fs

  -- What a generator that is not closed has still to give.
  abbrev pub remaining : SpoolGenerator M → List M
  remaining g = g.dec ++ flat (drop (suc g.current) g.files)

  abbrev pub IsReading : SpoolGenerator M → Type 0
  IsReading g = (g.closed ≡ false) × (g.current < length g.files)

  -- A call gives the first of the remaining messages, or EOF where there are none.
  abbrev pub Gives : SpoolGenerator M → Option M × SpoolGenerator M → Type 0
  Gives g r =
      ((m : M) × (r.0 ≡ some m)
        × (remaining g ≡ m ∷ remaining r.1)
        × IsReading r.1
        × (length r.1.files ≡ length g.files))
      ⊎ ((r.0 ≡ none) × (remaining g ≡ []) × (r.1.closed ≡ true))

  advance : SpoolGenerator M → SpoolGenerator M
  advance g = record g {
    current = g.current + 1;
    dec = elim (get_elem? g.files (g.current + 1)) [ none ↦ [] | some f ↦ f ];
  }

  advance_to :
      (g : SpoolGenerator M) (f : List M)
      → get_elem? g.files (suc g.current) ≡ some f
      → advance g ≡ record g { current = suc g.current; dec = f }
  unfolding advance
  advance_to g f at = rw add-one (ground (arith, at))

  advance_lem :
      (g : SpoolGenerator M)
      → IsReading g
      → g.current + 1 < length g.files
      → g.dec ≡ []
      → (remaining g ≡ remaining (advance g))
        × IsReading (advance g)
        × (length (advance g).files ≡ length g.files)
        × ((advance g).current ≡ suc g.current)
  advance_lem g (o, l) h e =
      let (f, at, next) = drop_get g.files (suc g.current) (omega arith) in
      rw (advance_to g f at) (
        ap (λ (t : List M). t ++ flat (drop (suc g.current) g.files)) e ∙ ap flat next,
        (o, omega arith),
        refl,
        refl,
      )

  generate_step :
      (rounds : ℕ) (g : SpoolGenerator M)
      → IsReading g
      → g.dec ≡ []
      → g.current + 1 < length g.files
      → generate (suc rounds) g ≡ generate rounds (advance g)
  unfolding generate advance
  generate_step rounds g (o, l) e h = ground arith

  generate_first :
      (rounds : ℕ) (g : SpoolGenerator M) (m : M) (ms : List M)
      → IsReading g
      → g.dec ≡ m ∷ ms
      → generate (suc rounds) g ≡ (some m, record g { dec = ms })
  unfolding generate
  generate_first rounds g m ms (o, l) e = ground arith

  generate_end :
      (rounds : ℕ) (g : SpoolGenerator M)
      → IsReading g
      → g.dec ≡ []
      → g.current + 1 ≡ length g.files
      → generate (suc rounds) g ≡ (none, record g { current = g.current + 1; closed = true })
  unfolding generate
  generate_end rounds g (o, l) e h = ground arith

  List-cases : (xs : List M) → (xs ≡ []) ⊎ ((m : M) × (ms : List M) × (xs ≡ m ∷ ms))
  List-cases [] = inl refl
  List-cases (m ∷ ms) = inr (m, ms, refl)

  moved :
      (g g' : SpoolGenerator M) (r : Option M × SpoolGenerator M)
      → remaining g ≡ remaining g'
      → length g'.files ≡ length g.files
      → Gives g' r
      → Gives g r
  moved g g' r e l (inl (m, a, b, c, d)) = inl (m, a, e ∙ b, c, d ∙ l)
  moved g g' r e l (inr (a, b, c)) = inr (a, e ∙ b, c)

  -- With as many rounds as there are files from the current one on, `Generate` gives the first of the
  -- remaining messages and keeps the others, or gives EOF and closes where nothing remains.
  pub generate-Gives :
      (rounds : ℕ) (g : SpoolGenerator M)
      → IsReading g
      → length g.files ≤ g.current + rounds
      → Gives g (generate rounds g)
  generate-Gives zero g (o, l) h = absurd (omega arith)
  generate-Gives (suc rounds) g r h = elim (List-cases g.dec) [
    | inr (m, ms, e) ↦
        rw (generate_first rounds g m ms r e)
          (inl (m, refl, ap (λ (t : List M). t ++ flat (drop (suc g.current) g.files)) e, r, refl))
    | inl e ↦ elim (dec_lt (g.current + 1) (length g.files)) [
      | yes more ↦
          let (same, r', size, place) = advance_lem g r more e in
          rw (generate_step rounds g r e more)
            (moved g (advance g) _ same size (generate-Gives rounds (advance g) r' (omega arith)))
      | no over ↦
          rw (generate_end rounds g r e (omega arith))
            (inr (refl, rw e (ap flat (drop_past g.files (suc g.current) (omega arith))), refl))
    ]
  ]
