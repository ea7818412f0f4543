-- ===== src/Message/Adding.antt =====
-- log.go: `Add`, which takes any value of Go, and `AddMany`.
pub mod Flattening
use cypress.Base.{
  ℕ, suc, Bool, true, false, List, [], ◌∷◌, ◌++◌, ◌≡◌, refl, ap, ◌∙◌, ◌<◌, ◌&&◌, arith,
  append_assoc, if◌then◌else◌,
}
use cypress.Base.Text.{Text, codes}
use cypress.Base.Int.{ℤ, to_int64}
use cypress.Base.Decimal.{decimal}
use cypress.Base.Results.{Result, ok, err, Panic, nil_value, odd_arguments, index, ◌>>=◌}
use cypress.Message.Types.{Message}
use cypress.Message.Symbols.{version_symbols}
use cypress.Message.Attributes.{
  Value, int_value, float_value, string_value, bytes_value, interval_value, bool_value, add_value,
  add_all,
}
use cypress.Message.Intervals.{duration_to_interval}

-- A value by the case of the switch that it meets: the ints of all sizes and an `Inter`, the unsigned ones, floats, texts with
-- a `Stringer` and an error, bytes that are not nil, and what `tryContainers` finds behind pointers, where it is nothing, a slice
-- or an array, a map or a struct in the order in which it is run through, or of another kind.
mutual
  pub data GoValue : Type 0 where
    bool_go : Bool → GoValue
    int_go : ℤ → GoValue
    uint_go : ℕ → GoValue
    float_go : ℕ → GoValue
    string_go : Text → GoValue
    duration_go : ℤ → GoValue
    bytes_go : Text → GoValue
    nil_go : GoValue
    opaque_go : GoValue
    items_go : GoItems → GoValue
    fields_go : GoFields → GoValue

  pub data GoItems : Type 0 where
    no_items : GoItems
    item : GoValue → GoItems → GoItems

  -- The keys are as `%s` writes them, or the names that `fieldNames` gives.
  pub data GoFields : Type 0 where
    no_fields : GoFields
    field : Text → GoValue → GoFields → GoFields

-- The key `fmt.Sprintf("%s.%s", prefix, name)`.
abbrev pub inner_key : Text → Text → Text
inner_key prefix name = prefix ++ b'.' ∷ name

abbrev pub is_odd : List GoValue → Bool
is_odd [] = false
is_odd (v ∷ []) = true
is_odd (v ∷ w ∷ vs) = is_odd vs

abbrev pub key_text : (GoValue → Text) → GoValue → Text
key_text shown (string_go s) = s
key_text shown v = shown v

module _ {T : Type 0} where
  abbrev pub no_error : Result Panic (Message T) → Result Panic (Message T × Bool)
  no_error r = r >>= λ m. ok (m, true)

  unfoldable mutual
    unfolding add_value to_int64

    -- `Add`, with whether it returns no error. The table of symbols is read for every value.
    pub add : Message T → Text → GoValue → Result Panic (Message T × Bool)
    add m key (bool_go b) = no_error (add_value m key (bool_value b))
    add m key (int_go n) = no_error (add_value m key (int_value n))
    add m key (uint_go n) = no_error (add_value m key (int_value (to_int64 n)))
    add m key (float_go f) = no_error (add_value m key (float_value f))
    add m key (string_go s) = no_error (add_value m key (string_value s))
    add m key (duration_go d) = no_error (add_value m key (interval_value (duration_to_interval d)))
    add m key (bytes_go s) = no_error (add_value m key (bytes_value s))
    add m key nil_go = index version_symbols m.version >>= λ _. err nil_value
    add m key opaque_go = index version_symbols m.version >>= λ _. ok (m, false)
    add m key (items_go xs) = index version_symbols m.version >>= λ _. add_items m key 0 xs
    add m key (fields_go fs) = index version_symbols m.version >>= λ _. add_fields m key fs

    -- The loops of `tryContainers`, which drop the errors of `Add`.
    pub add_items : Message T → Text → ℕ → GoItems → Result Panic (Message T × Bool)
    add_items m prefix i no_items = ok (m, true)
    add_items m prefix i (item v xs) =
        add m (inner_key prefix (decimal i)) v >>= λ (n, _). add_items n prefix (suc i) xs

    pub add_fields : Message T → Text → GoFields → Result Panic (Message T × Bool)
    add_fields m prefix no_fields = ok (m, true)
    add_fields m prefix (field name v fs) =
        add m (inner_key prefix name) v >>= λ (n, _). add_fields n prefix fs

  -- `AddMany`: keys and values in turn, with the text that `%s` makes of a key that is no string.
  -- The errors of `Add` are dropped.
  unfoldable pub add_pairs : (GoValue → Text) → Message T → List GoValue → Result Panic (Message T)
  unfolding add
  add_pairs shown m [] = ok m
  add_pairs shown m (k ∷ []) = err odd_arguments
  add_pairs shown m (k ∷ v ∷ vs) = add m (key_text shown k) v >>= λ (n, _). add_pairs shown n vs

  unfoldable pub add_many : (GoValue → Text) → Message T → List GoValue → Result Panic (Message T)
  unfolding add_pairs
  add_many shown m vals = if is_odd vals then err odd_arguments else add_pairs shown m vals
