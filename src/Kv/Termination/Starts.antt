-- ===== src/Kv/Termination/Starts.antt =====
-- The loops over characters leave less than they were given.
use cypress.Base.{
  ℕ, ◌<◌, ◌≤◌, ◌≡◌, ap, Bool, true, false, none, some, [], ◌∷◌, ◌++◌, ◌==◌, length, if◌then◌else◌,
  arith, inl, inr, Bool-cases, Option-cases,
}
use cypress.Base.Text.{Text}
use cypress.Base.Results.{ok}
use cypress.Kv.Generate.{
  until_space, skip_to_start, bare_line, find_start, Start, message_at, bare_message, no_more,
}
use cypress.Kv.Termination.{Within, then_Within}

pub until_space-Within : (n : ℕ) (t : Text) → length t ≤ n → Within n (until_space t)
unfolding until_space
until_space-Within n [] h = tt
until_space-Within n (c ∷ t) h = elim (Bool-cases (c == b' ')) [
  | inl stop ↦ rw stop (omega (arith, h))
  | inr go ↦ rw go (
      then_Within n (until_space t) (λ (w, u). ok (c ∷ w, u))
        (until_space-Within n t (omega (arith, h))) (λ w u k. k))
]

-- Where a message begins there was a character before it.
abbrev pub Begins : ℕ → Start → Type 0
Begins n (message_at u) = length u < n
Begins n (bare_message line u) = length u ≤ n
Begins n no_more = Unit

some_same : {A : Type 0} {a b : A} → some a ≡ some b → a ≡ b
some_same {a = a} e = ap (λ o. elim o [ none ↦ a | some v ↦ v ]) e

skip_to_start-shorter :
    (n : ℕ) (t u : Text) → length t ≤ n → skip_to_start t ≡ some u → length u < n
unfolding skip_to_start
skip_to_start-shorter n [] u h e = absurd (ground (arith, e))
skip_to_start-shorter n (c ∷ []) u h e = absurd (ground (arith, e))
skip_to_start-shorter n (c ∷ d ∷ ds) u h e = elim (Bool-cases (c == 10)) [
  | inr inside ↦ skip_to_start-shorter n (d ∷ ds) u (omega (arith, h)) (rw inside at e)
  | inl newline ↦ elim (Bool-cases (d == b'>')) [
    | inr again_on ↦
        skip_to_start-shorter n (d ∷ ds) u (omega (arith, h)) (rw (newline, again_on) at e)
    | inl start ↦
        let found : some ds ≡ some u = rw (newline, start) at e in
        omega (arith, h, ap length (some_same found))
  ]
]

bare_line-shorter :
    (n : ℕ) (buf t : Text) (r : Text × Text)
    → length t ≤ n
    → bare_line buf t ≡ some r
    → length r.1 ≤ n
unfolding bare_line
bare_line-shorter n [] [] r h e = absurd (ground (arith, e))
bare_line-shorter n (b ∷ bs) [] r h e = omega (arith, h, ap (λ v. length v.1) (some_same e))
bare_line-shorter n [] (c ∷ t) r h e = elim (Bool-cases (c == 10)) [
  | inl newline ↦ bare_line-shorter n [] t r (omega (arith, h)) (rw newline at e)
  | inr inside ↦ bare_line-shorter n (c ∷ []) t r (omega (arith, h)) (rw inside at e)
]
bare_line-shorter n (b ∷ bs) (c ∷ t) r h e = elim (Bool-cases (c == 10)) [
  | inl newline ↦
      let found : some (b ∷ bs, t) ≡ some r = rw newline at e in
      omega (arith, h, ap (λ v. length v.1) (some_same found))
  | inr inside ↦ bare_line-shorter n (b ∷ bs ++ c ∷ []) t r (omega (arith, h)) (rw inside at e)
]

pub find_start-Begins : (bare : Bool) (t : Text) → Begins (length t) (find_start bare t)
unfolding find_start
find_start-Begins bare [] = tt
find_start-Begins bare (c ∷ t) = elim (Bool-cases (c == b'>')) [
  | inl start ↦ rw start (omega arith)
  | inr far ↦ rw far (later bare)
]
  where
    later :
        (bare : Bool)
        → Begins (length (c ∷ t)) (
            if bare
            then elim (bare_line [] (c ∷ t)) as (λ x. Start) [
              | none ↦ no_more
              | some r ↦ bare_message r.0 r.1
            ]
            else elim (skip_to_start (c ∷ t)) as (λ x. Start) [
              | none ↦ no_more
              | some u ↦ message_at u
            ])
    later true = elim (Option-cases (bare_line [] (c ∷ t))) [
      | inl e ↦ rw e tt
      | inr (r, e) ↦ rw e (bare_line-shorter (length (c ∷ t)) [] (c ∷ t) r (omega arith) e)
    ]
    later false = elim (Option-cases (skip_to_start (c ∷ t))) [
      | inl e ↦ rw e tt
      | inr (u, e) ↦ rw e (skip_to_start-shorter (length (c ∷ t)) (c ∷ t) u (omega arith) e)
    ]
