-- ===== src/Message/Removal/Repeated.antt =====
-- Removing a name that occurs twice, the second time in the last place.
use native.Mathlib.Nat.{add-zero, zero-add}
use cypress.Base.{
  ◌∙◌, ◌++◌, length-append, get_elem?-append_last, get_elem?-append_left, get_elem?-append_right, ℕ,
  zero, suc, ◌+◌, ◌-◌, ◌≤◌, ◌<◌, ◌≡◌, refl, Bool, true, false, some, List, [], ◌∷◌, arith, length,
  get_elem?, ltb, ltb→lt, Bool-cases, ◌⊎◌, inl, inr, Option-cases, ℕ_discrete,
}
use cypress.Base.Results.{Result, Result-cases, ok, err, Panic, slice_bounds, index_out_of_range}
use cypress.Message.Removal.{shift_down, remove_loop, remove_where}

module _ {A : Type 0} where
  -- The cells behind the shortened slice keep what they hold.
  shift_down-past :
      (i len j : ℕ) (xs : List A) → len ≤ suc j → get_elem? (shift_down i len xs) j ≡ get_elem? xs j
  unfolding shift_down
  shift_down-past zero (suc (suc len)) zero (x ∷ y ∷ xs) h = absurd (omega arith)
  shift_down-past zero (suc (suc len)) (suc j) (x ∷ y ∷ xs) h =
      shift_down-past zero (suc len) j (y ∷ xs) (omega arith)
  shift_down-past (suc i) (suc len) zero (x ∷ xs) h = refl
  shift_down-past (suc i) (suc len) (suc j) (x ∷ xs) h = shift_down-past i len j xs (omega arith)
  shift_down-past i len j xs h = refl

module _ {A : Type 0} (hit : A → Result Panic Bool) where
  abbrev Panics : Result Panic (List A) → Type 0
  Panics r = (p : Panic) × (r ≡ err p)

  abbrev Kept : ℕ → ℕ → List A → ℕ → Type 0
  Kept left idx xs len =
      (x : A) × (get_elem? xs idx ≡ some x)
      × (hit x ≡ ok false)
      × (remove_loop hit (suc left) idx xs len ≡ remove_loop hit left (idx + 1) xs len)

  abbrev Removed : ℕ → ℕ → List A → ℕ → Type 0
  Removed left idx xs len =
      (idx < len)
      × (remove_loop hit (suc left) idx xs len
          ≡ remove_loop hit left (idx + 1) (shift_down idx len xs) (len - 1))

  round_hit :
      (left idx : ℕ) (xs : List A) (len : ℕ) (x : A)
      → get_elem? xs idx ≡ some x
      → hit x ≡ ok true
      → Panics (remove_loop hit (suc left) idx xs len) ⊎ Removed left idx xs len
  unfolding remove_loop
  round_hit left idx xs len x e h = elim (Bool-cases (ltb idx len)) [
    | inl fits ↦ inr (ltb→lt idx len fits, ground arith)
    | inr past ↦ inl (slice_bounds, ground arith)
  ]

  -- What one round of the loop does.
  round-cases :
      (left idx : ℕ) (xs : List A) (len : ℕ)
      → Panics (remove_loop hit (suc left) idx xs len)
        ⊎ Kept left idx xs len
        ⊎ Removed left idx xs len
  unfolding remove_loop
  round-cases left idx xs len = elim (Option-cases (get_elem? xs idx)) [
    | inl out ↦ inl (index_out_of_range, ground arith)
    | inr (x, e) ↦ elim (Result-cases (hit x)) [
      | inl (true, h) ↦ elim (round_hit left idx xs len x e h) [
        | inl p ↦ inl p
        | inr r ↦ inr (inr r)
      ]
      | inl (false, h) ↦ inr (inl (x, e, h, ground arith))
      | inr (p, h) ↦ inl (p, ground arith)
    ]
  ]

module _ {A : Type 0} (hit : A → Result Panic Bool) (z : A) (last_hit : hit z ≡ ok true) where
  -- Once the slice is shorter than the range, a hit in the last cell is out of bounds.
  Panics-after :
      (left idx : ℕ) (xs : List A) (len : ℕ)
      → get_elem? xs (idx + left) ≡ some z
      → len < idx + suc left
      → Panics hit (remove_loop hit (suc left) idx xs len)
  Panics-after zero idx xs len e h = elim (round-cases hit zero idx xs len) [
    | inl p ↦ p
    | inr (inl (x, g, miss, _)) ↦ absurd (ground (arith, last_hit, rw (add-zero idx) at e))
    | inr (inr (inside, _)) ↦ absurd (omega arith)
  ]
  Panics-after (suc left) idx xs len e h =
      let at : idx + suc left ≡ idx + 1 + left = omega arith in
      let e' = rw at at e in
      elim (round-cases hit (suc left) idx xs len) [
        | inl p ↦ p
        | inr (inl (x, g, miss, step)) ↦
            rw step (Panics-after left (idx + 1) xs len e' (omega arith))
        | inr (inr (inside, step)) ↦ rw step (
            Panics-after left (idx + 1) (shift_down idx len xs) (len - 1)
              (shift_down-past idx len (idx + 1 + left) xs (omega arith) ∙ e') (omega arith))
      ]

  -- Before the first removal: a hit stands at `idx + gap`, in front of the last cell.
  Panics-before :
      (n gap idx len : ℕ) (xs : List A) (x : A)
      → get_elem? xs (idx + gap) ≡ some x
      → hit x ≡ ok true
      → get_elem? xs (idx + n) ≡ some z
      → gap < n
      → len ≡ idx + suc n
      → Panics hit (remove_loop hit (suc n) idx xs len)
  Panics-before zero gap idx len xs x e h l g k = absurd (omega arith)
  Panics-before (suc n) gap idx len xs x e h l g k =
      let at : idx + suc n ≡ idx + 1 + n = omega arith in
      let l' = rw at at l in
      elim (round-cases hit (suc n) idx xs len) [
        | inl p ↦ p
        | inr (inl (y, f, miss, step)) ↦ elim (ℕ_discrete gap 0) [
          | yes here ↦ absurd (ground (arith, rw (here, add-zero idx) at e))
          | no later ↦
              let at' : idx + gap ≡ idx + 1 + (gap - 1) = omega arith in
              rw step (
                Panics-before n (gap - 1) (idx + 1) len xs x (rw at' at e) h l' (omega arith)
                  (omega arith))
        ]
        | inr (inr (inside, step)) ↦ rw step (
            Panics-after n (idx + 1) (shift_down idx len xs) (len - 1)
              (shift_down-past idx len (idx + 1 + n) xs (omega arith) ∙ l') (omega arith))
      ]

module _ {A : Type 0} (hit : A → Result Panic Bool) (pre mid : List A) (x z : A) where
  -- A hit in the last cell and another in front of it make the deletion panic.
  pub remove_where_repeated :
      hit x ≡ ok true
      → hit z ≡ ok true
      → (p : Panic) × (remove_where hit (pre ++ x ∷ mid ++ z ∷ []) ≡ err p)
  unfolding remove_where
  remove_where_repeated hx hz =
      let n : ℕ = length pre + suc (length mid) in
      let size' : length (pre ++ x ∷ mid) ≡ n = length-append pre (x ∷ mid) in
      let size : length (pre ++ x ∷ mid ++ z ∷ []) ≡ suc n =
        omega (arith, size', length-append (pre ++ x ∷ mid) (z ∷ [])) in
      let first : get_elem? (pre ++ x ∷ mid ++ z ∷ []) (length pre) ≡ some x =
        get_elem?-append_left (pre ++ x ∷ mid) (z ∷ []) (length pre)
          (rw add-zero at (get_elem?-append_right pre (x ∷ mid) 0)) in
      let last : get_elem? (pre ++ x ∷ mid ++ z ∷ []) (0 + n) ≡ some z =
        rw (zero-add n, ← size') (get_elem?-append_last (pre ++ x ∷ mid) z) in
      rw size (
        Panics-before hit z hz n (length pre) 0 (suc n) (pre ++ x ∷ mid ++ z ∷ []) x
          (rw zero-add first) hx last (omega arith) (omega arith))
