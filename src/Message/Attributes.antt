-- ===== src/Message/Attributes.antt =====
-- log.go: reading attributes by name, and adding them one at a time.
pub mod Lookup
use cypress.Base.{
  ℕ, zero, Bool, true, false, Option, none, some, List, [], ◌∷◌, ◌++◌, ◌==◌, if◌then◌else◌,
}
use cypress.Base.Text.{Text, codes, same}
use cypress.Base.Int.{ℤ}
use cypress.Base.Results.{Result, ok, err, Panic, ◌>>=◌}
use cypress.Message.Types.{Attribute, Interval, Message}
use cypress.Message.Symbols.{Symbols, from_index, find_index, version_symbols}
use cypress.Base.Results.{index}

-- `Attribute.StringKey`; the version is that of the message.
unfoldable pub string_key : ℕ → Attribute → Result Panic Text
string_key version a =
    if a.key == 0
    then ok (elim a.skey [ none ↦ codes "<nil>" | some k ↦ k ])
    else (index version_symbols version >>= λ s. from_index s a.key)

-- The loop that all the getters share: the first attribute with the name.
pub find_attr : ℕ → Text → List Attribute → Result Panic (Option Attribute)
unfolding string_key
find_attr version key [] = ok none
find_attr version key (a ∷ attrs) =
    let rest = find_attr version key attrs in
    string_key version a >>= λ k. if same k key then ok (some a) else rest

-- What `Attribute.Value` returns when it is not nil.
pub data Value : Type 0 where
  int_value : ℤ → Value
  float_value : ℕ → Value
  string_value : Text → Value
  bytes_value : Text → Value
  interval_value : Interval → Value
  bool_value : Bool → Value

abbrev pub or_else : {A : Type 0} {B : Type 0} → Option A → (A → B) → Option B → Option B
or_else none f d = d
or_else (some a) f d = some (f a)

-- `Attribute.Value`: the first field that is set, in the order of the code.
pub value : Attribute → Option Value
value a = or_else a.ival int_value (
    or_else a.fval float_value (
      or_else a.sval string_value (
        or_else a.bval bytes_value
          (or_else a.tval interval_value (or_else a.boolval bool_value none)))))

module _ {T : Type 0} where
  -- `none` is the result `nil, false`.
  pub get : Message T → Text → Result Panic (Option (Option Value))
  unfolding find_attr value
  get m key =
      find_attr m.version key m.attributes
      >>= elim [ none ↦ ok none | some a ↦ ok (some (value a)) ]

  -- The typed getters fail alike on a name that is missing and on another type.
  get_field : {A : Type 0} → (Attribute → Option A) → Message T → Text → Result Panic (Option A)
  unfolding find_attr
  get_field field m key =
      find_attr m.version key m.attributes >>= elim [ none ↦ ok none | some a ↦ ok (field a) ]

  pub get_int : Message T → Text → Result Panic (Option ℤ)
  unfolding get_field
  get_int = get_field λ a. a.ival

  pub get_float : Message T → Text → Result Panic (Option ℕ)
  unfolding get_field
  get_float = get_field λ a. a.fval

  pub get_string : Message T → Text → Result Panic (Option Text)
  unfolding get_field
  get_string = get_field λ a. a.sval

  pub get_bytes : Message T → Text → Result Panic (Option Text)
  unfolding get_field
  get_bytes = get_field λ a. a.bval

  pub get_interval : Message T → Text → Result Panic (Option Interval)
  unfolding get_field
  get_interval = get_field λ a. a.tval

  pub get_bool : Message T → Text → Result Panic (Option Bool)
  unfolding get_field
  get_bool = get_field λ a. a.boolval

abbrev pub empty_attribute : Attribute
empty_attribute = record {
  key = 0;
  skey = none;
  ival = none;
  sval = none;
  bval = none;
  tval = none;
  boolval = none;
  fval = none;
}

-- `Attribute.SetKey`: a preset name goes in by its index, any other as text.
unfoldable pub set_key : ℕ → Attribute → Text → Result Panic Attribute
set_key version a key = index version_symbols version >>= λ s. elim (find_index s key) [
  | some i ↦ ok (record a { key = i })
  | none ↦ ok (record a { skey = some key })
]

module _ {T : Type 0} where
  -- A new attribute with the key, its value set by `fill`, at the end.
  unfoldable pub add_attr : Message T → Text → (Attribute → Attribute) → Result Panic (Message T)
  unfolding set_key
  add_attr m key fill = set_key m.version empty_attribute key >>= λ a.
      ok (record m { attributes = m.attributes ++ fill a ∷ [] })

  unfoldable pub add_int : Message T → Text → ℤ → Result Panic (Message T)
  unfolding add_attr
  add_int m key v = add_attr m key λ a. record a { ival = some v }

  unfoldable pub add_float : Message T → Text → ℕ → Result Panic (Message T)
  unfolding add_attr
  add_float m key v = add_attr m key λ a. record a { fval = some v }

  unfoldable pub add_string : Message T → Text → Text → Result Panic (Message T)
  unfolding add_attr
  add_string m key v = add_attr m key λ a. record a { sval = some v }

  unfoldable pub add_bytes : Message T → Text → Option Text → Result Panic (Message T)
  unfolding add_attr
  add_bytes m key v = add_attr m key λ a. record a { bval = v }

  unfoldable pub add_interval : Message T → Text → ℕ → ℕ → Result Panic (Message T)
  unfolding add_attr
  add_interval m key sec nsec =
      add_attr m key λ a. record a { tval = some (record { seconds = sec; nanoseconds = nsec }) }

  -- The adder of each type of value. A bool goes through `Add`, which files it in the same way.
  unfoldable pub add_value : Message T → Text → Value → Result Panic (Message T)
  unfolding add_int add_float add_string add_bytes add_interval
  add_value m key (int_value v) = add_int m key v
  add_value m key (float_value v) = add_float m key v
  add_value m key (string_value v) = add_string m key v
  add_value m key (bytes_value v) = add_bytes m key (some v)
  add_value m key (interval_value v) = add_interval m key v.seconds v.nanoseconds
  add_value m key (bool_value v) = add_attr m key λ a. record a { boolval = some v }

-- Several attributes added one after the other.
unfoldable pub add_all : {T : Type 0} → Message T → List (Text × Value) → Result Panic (Message T)
unfolding add_value
add_all m [] = ok m
add_all m ((key, v) ∷ kvs) = add_value m key v >>= λ n. add_all n kvs
