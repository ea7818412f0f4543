-- ===== src/Message/Adding/Flattening.antt =====
-- `Add` of a value with parts adds the parts one by one, under joined keys.
use cypress.Base.{
  ℕ, suc, Bool, true, false, List, [], ◌∷◌, ◌++◌, ◌≡◌, refl, ◌∙◌, ◌<◌, inl, inr, arith,
}
use cypress.Base.Text.{Text}
use cypress.Base.Int.{to_int64}
use cypress.Base.Decimal.{decimal}
use cypress.Base.Results.{Result, ok, Panic, index, Result-cases, ◌>>=◌}
use cypress.Message.Types.{Message}
use cypress.Message.Symbols.{version_symbols}
use cypress.Message.Symbols.Laws.{version_symbols-IsConsistent}
use cypress.Message.Attributes.{
  Value, int_value, float_value, string_value, bytes_value, interval_value, bool_value, add_attr,
  add_value, add_all,
}
use cypress.Message.Attributes.Lookup.{string_key-set_key, fill_with, add_value-fill_with}
use cypress.Message.Intervals.{duration_to_interval}
use cypress.Message.Adding.{
  GoValue, bool_go, int_go, uint_go, float_go, string_go, duration_go, bytes_go, nil_go, opaque_go,
  items_go, fields_go, GoItems, no_items, item, GoFields, no_fields, field, inner_key, add,
  add_items, add_fields,
}

-- The attributes of a value, without those of another kind.
unfoldable mutual
  pub flatten : Text → GoValue → List (Text × Value)
  flatten key (bool_go b) = (key, bool_value b) ∷ []
  flatten key (int_go n) = (key, int_value n) ∷ []
  flatten key (uint_go n) = (key, int_value (to_int64 n)) ∷ []
  flatten key (float_go f) = (key, float_value f) ∷ []
  flatten key (string_go s) = (key, string_value s) ∷ []
  flatten key (duration_go d) = (key, interval_value (duration_to_interval d)) ∷ []
  flatten key (bytes_go s) = (key, bytes_value s) ∷ []
  flatten key nil_go = []
  flatten key opaque_go = []
  flatten key (items_go xs) = flatten_items key 0 xs
  flatten key (fields_go fs) = flatten_fields key fs

  flatten_items : Text → ℕ → GoItems → List (Text × Value)
  flatten_items prefix i no_items = []
  flatten_items prefix i (item v xs) =
      flatten (inner_key prefix (decimal i)) v ++ flatten_items prefix (suc i) xs

  flatten_fields : Text → GoFields → List (Text × Value)
  flatten_fields prefix no_fields = []
  flatten_fields prefix (field name v fs) =
      flatten (inner_key prefix name) v ++ flatten_fields prefix fs

-- Nothing is nil, at any depth.
abbrev mutual
  pub IsPresent : GoValue → Type 0
  IsPresent (bool_go b) = Unit
  IsPresent (int_go n) = Unit
  IsPresent (uint_go n) = Unit
  IsPresent (float_go f) = Unit
  IsPresent (string_go s) = Unit
  IsPresent (duration_go d) = Unit
  IsPresent (bytes_go s) = Unit
  IsPresent nil_go = ⊥
  IsPresent opaque_go = Unit
  IsPresent (items_go xs) = ArePresent xs
  IsPresent (fields_go fs) = HavePresent fs

  pub ArePresent : GoItems → Type 0
  ArePresent no_items = Unit
  ArePresent (item v xs) = IsPresent v × ArePresent xs

  pub HavePresent : GoFields → Type 0
  HavePresent no_fields = Unit
  HavePresent (field name v fs) = IsPresent v × HavePresent fs

abbrev pub is_supported : GoValue → Bool
is_supported opaque_go = false
is_supported v = true

module _ {T : Type 0} where
  add_value-total :
      (m : Message T) (key : Text) (v : Value)
      → m.version < 2
      → (n : Message T) × (add_value m key v ≡ ok n) × (n.version ≡ m.version)
  unfolding add_attr
  add_value-total m key v h =
      let (a, e, k, blank) = string_key-set_key m.version key h in
      (
        record m { attributes = m.attributes ++ fill_with v a ∷ [] },
        add_value-fill_with m key v ∙ rw (add_attr, e),
        refl,
      )

  add_all-append :
      (m : Message T) (xs ys : List (Text × Value))
      → add_all m (xs ++ ys) ≡ (add_all m xs >>= λ n. add_all n ys)
  unfolding add_all
  add_all-append m [] ys = refl
  add_all-append m ((key, v) ∷ xs) ys = elim (Result-cases (add_value m key v)) [
    | inl (n, e) ↦ rw e (add_all-append n xs ys)
    | inr (p, e) ↦ rw e refl
  ]

  -- What `Add` leaves, and what it answers.
  abbrev pub Adds :
      Message T → List (Text × Value) → Result Panic (Message T × Bool) → Bool → Type 0
  Adds m kvs r answer =
      (n : Message T) × (add_all m kvs ≡ ok n) × (r ≡ ok (n, answer)) × (n.version ≡ m.version)

  add_one :
      (m : Message T) (key : Text) (v : Value)
      → m.version < 2
      → Adds m ((key, v) ∷ []) (add_value m key v >>= λ n. ok (n, true)) true
  unfolding add_all
  add_one m key v h =
      let (n, e, same) = add_value-total m key v h in (n, rw e refl, rw e refl, same)

  then_add :
      (m : Message T) (xs ys : List (Text × Value)) (r : Result Panic (Message T × Bool))
      (next : Message T → Result Panic (Message T × Bool)) (answer : Bool)
      → Adds m xs r answer
      → ((n : Message T) → n.version ≡ m.version → Adds n ys (next n) true)
      → Adds m (xs ++ ys) (r >>= λ (n, _). next n) true
  then_add m xs ys r next answer (n, added, e, same) more =
      let (o, added', e', same') = more n same in
      (o, add_all-append m xs ys ∙ rw added added', rw e e', same' ∙ same)

  -- The table of symbols is there.
  table :
      (m : Message T) (r : Result Panic (Message T × Bool))
      → m.version < 2
      → (index version_symbols m.version >>= λ _. r) ≡ r
  table m r h = let (t, e, c, l) = version_symbols-IsConsistent m.version h in rw (index, e) refl

  mutual
    unfolding add flatten add_all

    parts_added :
        (m : Message T) (key : Text) (v : GoValue)
        → m.version < 2
        → IsPresent v
        → Adds m (flatten key v) (add m key v) (is_supported v)
    parts_added m key (bool_go b) h p = add_one m key (bool_value b) h
    parts_added m key (int_go n) h p = add_one m key (int_value n) h
    parts_added m key (uint_go n) h p = add_one m key (int_value (to_int64 n)) h
    parts_added m key (float_go f) h p = add_one m key (float_value f) h
    parts_added m key (string_go s) h p = add_one m key (string_value s) h
    parts_added m key (duration_go d) h p =
        add_one m key (interval_value (duration_to_interval d)) h
    parts_added m key (bytes_go s) h p = add_one m key (bytes_value s) h
    parts_added m key nil_go h p = absurd p
    parts_added m key opaque_go h p = (m, refl, table m (ok (m, false)) h, refl)
    parts_added m key (items_go xs) h p =
        let (n, added, e, same) = items_added m key 0 xs h p in
        (n, added, table m (add_items m key 0 xs) h ∙ e, same)
    parts_added m key (fields_go fs) h p =
        let (n, added, e, same) = fields_added m key fs h p in
        (n, added, table m (add_fields m key fs) h ∙ e, same)

    items_added :
        (m : Message T) (key : Text) (i : ℕ) (xs : GoItems)
        → m.version < 2
        → ArePresent xs
        → Adds m (flatten_items key i xs) (add_items m key i xs) true
    items_added m key i no_items h p = (m, refl, refl, refl)
    items_added m key i (item v xs) h (p, ps) =
        then_add m (flatten (inner_key key (decimal i)) v) (flatten_items key (suc i) xs)
          (add m (inner_key key (decimal i)) v) (λ n. add_items n key (suc i) xs) (is_supported v)
          (parts_added m (inner_key key (decimal i)) v h p)
          (λ n same. items_added n key (suc i) xs (omega (arith, same)) ps)

    fields_added :
        (m : Message T) (key : Text) (fs : GoFields)
        → m.version < 2
        → HavePresent fs
        → Adds m (flatten_fields key fs) (add_fields m key fs) true
    fields_added m key no_fields h p = (m, refl, refl, refl)
    fields_added m key (field name v fs) h (p, ps) =
        then_add m (flatten (inner_key key name) v) (flatten_fields key fs)
          (add m (inner_key key name) v) (λ n. add_fields n key fs) (is_supported v)
          (parts_added m (inner_key key name) v h p)
          (λ n same. fields_added n key fs (omega (arith, same)) ps)

  -- A value that holds nothing nil, in a message of either version: `Add` does not panic, leaves
  -- the message that adding the parts one by one gives, and fails only on a value of another kind, which adds nothing; such
  -- a part of a slice, a map or a struct is passed over.
  pub add-flatten :
      (m : Message T) (key : Text) (v : GoValue)
      → m.version < 2
      → IsPresent v
      → Adds m (flatten key v) (add m key v) (is_supported v)
  add-flatten m key v h p = parts_added m key v h p
