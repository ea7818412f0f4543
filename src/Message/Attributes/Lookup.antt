-- ===== src/Message/Attributes/Lookup.antt =====
-- Reading an attribute back by the name under which it was added.
use cypress.Base.{
  ℕ, ◌<◌, ◌≡◌, refl, Option, none, some, List, [], ◌∷◌, ◌++◌, arith, if◌then◌else◌, Option-cases,
  Bool-cases, inl, inr, ◌∙◌,
}
use cypress.Base.Text.{Text, same}
use cypress.Base.Results.{Result, Result-cases, ok, err, Panic, ◌>>=◌}
use cypress.Message.Types.{Attribute, Message}
use cypress.Message.Symbols.{find_index}
use cypress.Message.Symbols.Laws.{version_symbols-IsConsistent, in_range_index}
use cypress.Message.Attributes.{
  string_key, find_attr, value, Value, int_value, float_value, string_value, bytes_value,
  interval_value, bool_value, get, empty_attribute, set_key, add_attr, add_value,
}

-- The key under which `SetKey` files a name gives the name back, in a message of either version.
pub string_key-set_key :
    (version : ℕ) (key : Text)
    → version < 2
    → (a : Attribute) × (set_key version empty_attribute key ≡ ok a)
      × (string_key version a ≡ ok key)
      × (record a { key = 0; skey = none } ≡ empty_attribute)
unfolding set_key string_key
string_key-set_key version key h =
    let (t, e, c, l) = version_symbols-IsConsistent version h in
    elim (Option-cases (find_index t key)) [
      | inl fresh ↦ (record empty_attribute { skey = some key }, ground arith, ground arith, refl)
      | inr (i, old) ↦
          let (p, g) = c.listed key i old in
          let (r, lt) = (in_range_index t i key (omega arith)).1 g in
          (record empty_attribute { key = i }, ground arith, ground arith, refl)
    ]

-- One more attribute at the end is found only where the search has found nothing before it.
abbrev then_last : Text → Text → Attribute → Option Attribute → Result Panic (Option Attribute)
then_last key query a (some b) = ok (some b)
then_last key query a none = if same key query then ok (some a) else ok none

find_attr-append :
    (version : ℕ) (query key : Text) (attrs : List Attribute) (a : Attribute)
    → string_key version a ≡ ok key
    → find_attr version query (attrs ++ a ∷ [])
      ≡ (find_attr version query attrs >>= then_last key query a)
unfolding find_attr
find_attr-append version query key [] a e = ground arith
find_attr-append version query key (b ∷ attrs) a e = elim (Result-cases (string_key version b)) [
  | inl (k, good) ↦ elim (Bool-cases (same k query)) [
    | inl hit ↦ rw (good, ◌>>=◌) (rw hit refl)
    | inr miss ↦ rw (good, ◌>>=◌) (rw miss (find_attr-append version query key attrs a e))
  ]
  | inr (p, bad) ↦ rw bad refl
]

add_attr_lem :
    {T : Type 0} (m : Message T) (key : Text) (fill : Attribute → Attribute) (a : Attribute)
    → set_key m.version empty_attribute key ≡ ok a
    → add_attr m key fill ≡ ok (record m { attributes = m.attributes ++ fill a ∷ [] })
unfolding add_attr
add_attr_lem m key fill a e = rw e refl

-- What `Get` answers about one more attribute behind the answer of the message before.
abbrev pub then_value :
    Text → Text → Value → Option (Option Value) → Result Panic (Option (Option Value))
then_value key query v (some found) = ok (some found)
then_value key query v none = if same key query then ok (some (some v)) else ok none

-- `set` writes the one field that holds the value.
unfoldable pub fill_with : Value → Attribute → Attribute
fill_with (int_value v) a = record a { ival = some v }
fill_with (float_value v) a = record a { fval = some v }
fill_with (string_value v) a = record a { sval = some v }
fill_with (bytes_value v) a = record a { bval = some v }
fill_with (interval_value v) a = record a { tval = some v }
fill_with (bool_value v) a = record a { boolval = some v }

value-fill_with :
    (v : Value) (a : Attribute)
    → record a { key = 0; skey = none } ≡ empty_attribute
    → value (fill_with v a) ≡ some v
unfolding value fill_with
value-fill_with (int_value v) a e = ground arith
value-fill_with (float_value v) a e = ground arith
value-fill_with (string_value v) a e = ground arith
value-fill_with (bytes_value v) a e = ground arith
value-fill_with (interval_value v) a e = ground arith
value-fill_with (bool_value v) a e = ground arith

pub string_key-fill_with :
    (version : ℕ) (v : Value) (a : Attribute)
    → string_key version (fill_with v a) ≡ string_key version a
unfolding string_key fill_with
string_key-fill_with version (int_value v) a = refl
string_key-fill_with version (float_value v) a = refl
string_key-fill_with version (string_value v) a = refl
string_key-fill_with version (bytes_value v) a = refl
string_key-fill_with version (interval_value v) a = refl
string_key-fill_with version (bool_value v) a = refl

pub add_value-fill_with :
    {T : Type 0} (m : Message T) (key : Text) (v : Value)
    → add_value m key v ≡ add_attr m key (fill_with v)
unfolding add_value fill_with
add_value-fill_with m key (int_value v) = refl
add_value-fill_with m key (float_value v) = refl
add_value-fill_with m key (string_value v) = refl
add_value-fill_with m key (bytes_value v) = refl
add_value-fill_with m key (interval_value v) = refl
add_value-fill_with m key (bool_value v) = refl

read_last :
    (r : Result Panic (Option Attribute)) (key query : Text) (v : Value) (a : Attribute)
    → value a ≡ some v
    → ((r >>= then_last key query a) >>= elim [ none ↦ ok none | some b ↦ ok (some (value b)) ])
      ≡ ((r >>= elim [ none ↦ ok none | some b ↦ ok (some (value b)) ]) >>= then_value key query v)
read_last (ok (some b)) key query v a e = refl
read_last (ok none) key query v a e = ground arith
read_last (err p) key query v a e = refl

-- Each of the adders succeeds on a message of version 0 or 1. The message is the one before, its
-- attributes as they were, with one more attribute behind them that holds the value and is filed
-- under the name, and nothing else of it changes. Afterwards `Get` finds the new value under its
-- name, unless an attribute of that name was there, which stays the one found; what `Get` says of
-- every other name is unchanged.
pub get-add_value :
    {T : Type 0} (m : Message T) (key : Text) (v : Value)
    → m.version < 2
    → (b : Attribute) × (add_value m key v ≡ ok (record m { attributes = m.attributes ++ b ∷ [] }))
      × (value b ≡ some v)
      × (string_key m.version b ≡ ok key)
      × ((query : Text)
          → get (record m { attributes = m.attributes ++ b ∷ [] }) query
            ≡ (get m query >>= then_value key query v))
unfolding get
get-add_value m key v h =
    let (a, e, k, blank) = string_key-set_key m.version key h in
    let held = value-fill_with v a blank in
    let filed = string_key-fill_with m.version v a ∙ k in
    (
      fill_with v a,
      add_value-fill_with m key v ∙ add_attr_lem m key (fill_with v) a e,
      held,
      filed,
      λ query.
          rw (find_attr-append m.version query key m.attributes (fill_with v a) filed)
            (read_last _ key query v (fill_with v a) held),
    )
