-- ===== src/Message/Tests.antt =====
-- Small messages.
use cypress.Base.{
  ℕ, ◌≡◌, ◌≤◌, ◌<◌, ◌↔◌, refl, some, none, true, false, [], ◌∷◌, ◌++◌, length, arith,
}
use cypress.Base.Text.{Text, codes, same}
use cypress.Base.Decimal.{decimal}
use cypress.Base.Int.{pos, negsuc, ℤ}
use cypress.Base.Results.{ok, err, Panic, ◌>>=◌}
use cypress.Message.Types.{Attribute, Message}
use cypress.Message.Symbols.{Symbols, new_symbols, append, from_index, find_index}
use cypress.Message.Symbols.Laws.{find_index_iff}
use cypress.Message.Attributes.{
  string_key, empty_attribute, value, int_value, string_value, bool_value, get, add_value,
}
use cypress.Message.Attributes.Lookup.{get-add_value, then_value}
use cypress.Message.Adding.{
  bool_go, int_go, string_go, opaque_go, items_go, fields_go, no_items, item, no_fields, field, add,
  GoValue,
}
use cypress.Message.Adding.Flattening.{flatten, is_supported, Adds, add-flatten}
use cypress.Message.Tags.{add_tag, get_tag, get_tag-add_tag}
use cypress.Message.Removal.{remove}
use cypress.Message.Removal.Named.{Bears, remove_once, remove_repeated}
use cypress.Message.Intervals.{
  duration, duration_to_interval, subsecond, parse_subsecond, pad_zeros, strip_zeros,
}
use cypress.Message.Intervals.Durations.{duration-duration_to_interval}
use cypress.Message.Intervals.Fractions.{parse_subsecond-subsecond}

abbrev empty_message : Message ℕ
empty_message = record {
  version = 1;
  timestamp = none;
  msg_type = none;
  attributes = [];
  session_id = none;
  tags = [];
}

abbrev size_name : Text
size_name = codes "size"

abbrev port_name : Text
port_name = codes "port"

abbrev attr : Text → ℤ → Attribute
attr name v = record empty_attribute { skey = some name; ival = some v }

-- A table of two names.
abbrev two_names : Symbols
two_names = record {
  str_to_index = (port_name, 2) ∷ (size_name, 1) ∷ [];
  index_to_str = codes "-" ∷ size_name ∷ port_name ∷ [];
}

two_names_built : append new_symbols (size_name ∷ port_name ∷ []) ≡ ok two_names
unfolding append new_symbols
two_names_built = refl

find_index_iff_example :
    (find_index two_names port_name ≡ some 2)
    ↔ ((0 < 2) × (2 < 3) × (from_index two_names 2 ≡ ok port_name))
find_index_iff_example =
    find_index_iff (size_name ∷ port_name ∷ []) two_names port_name 2 (omega arith) two_names_built

get-add_value_example :
    (b : Attribute) × (add_value empty_message size_name (int_value (pos 7))
      ≡ ok (record empty_message { attributes = empty_message.attributes ++ b ∷ [] }))
    × (value b ≡ some (int_value (pos 7)))
    × (string_key empty_message.version b ≡ ok size_name)
    × ((query : Text)
        → get (record empty_message { attributes = empty_message.attributes ++ b ∷ [] }) query
          ≡ (get empty_message query >>= then_value size_name query (int_value (pos 7))))
get-add_value_example = get-add_value empty_message size_name (int_value (pos 7)) (omega arith)

get_tag-add_tag_example :
    get_tag (add_tag (add_tag empty_message size_name []) size_name (codes "3")) size_name
    ≡ some (codes "3")
unfolding same
get_tag-add_tag_example =
    get_tag-add_tag (add_tag empty_message size_name []) size_name (codes "3") size_name

size-Bears : (v : ℤ) → Bears 1 size_name true (attr size_name v)
unfolding string_key same
size-Bears v = (size_name, refl, refl)

port-Bears : (v : ℤ) → Bears 1 size_name false (attr port_name v)
unfolding string_key same
port-Bears v = (port_name, refl, refl)

remove_once_example :
    remove
      (record empty_message { attributes = attr port_name (pos 1) ∷ attr size_name (pos 2) ∷ [] })
      size_name
    ≡ ok (record empty_message { attributes = attr port_name (pos 1) ∷ [] })
remove_once_example =
    remove_once empty_message size_name (attr port_name (pos 1) ∷ []) (attr size_name (pos 2)) []
      (port-Bears (pos 1), tt) (size-Bears (pos 2)) tt

remove_repeated_example :
    (p : Panic) × (remove
        (record empty_message {
          attributes =
              attr size_name (pos 1) ∷ attr port_name (pos 2) ∷ attr size_name (pos 3) ∷ [];
        })
        size_name
      ≡ err p)
remove_repeated_example =
    remove_repeated empty_message size_name [] (attr size_name (pos 1))
      (attr port_name (pos 2) ∷ []) (attr size_name (pos 3)) (size-Bears (pos 1))
      (size-Bears (pos 3))

-- Half a second back.
duration-duration_to_interval_example :
    (duration (duration_to_interval (negsuc 499_999_999)) ≡ negsuc 499_999_999)
    × ((duration_to_interval (negsuc 499_999_999)).nanoseconds < 1_000_000_000)
duration-duration_to_interval_example =
    duration-duration_to_interval (negsuc 499_999_999) (omega arith)

parse_subsecond-subsecond_example :
    (str : Text) × (subsecond 50_000_000 ≡ ok str)
    × (parse_subsecond str ≡ ok 50_000_000)
    × (length str ≤ 9)
parse_subsecond-subsecond_example = parse_subsecond-subsecond 50_000_000 (omega arith) (omega arith)

fifty_milliseconds : subsecond 50_000_000 ≡ ok (codes "05")
unfolding subsecond pad_zeros strip_zeros decimal
fifty_milliseconds = refl

-- A struct with a slice, one of whose elements is of no kind that is known.
abbrev parts : GoValue
parts = fields_go (
    field size_name
      (items_go (item (int_go (pos 3)) (item opaque_go (item (string_go port_name) no_items))))
      (field port_name (bool_go true) no_fields))

add-flatten_example :
    Adds empty_message
      (flatten (codes "x") parts)
      (add empty_message (codes "x") parts)
      (is_supported parts)
add-flatten_example =
    add-flatten empty_message (codes "x") parts (omega arith) ((tt, (tt, (tt, tt))), (tt, tt))

flat_parts :
    flatten (codes "x") parts
    ≡ (codes "x.size.0", int_value (pos 3))
      ∷ (codes "x.size.2", string_value port_name)
      ∷ (codes "x.port", bool_value true)
      ∷ []
unfolding flatten decimal
flat_parts = refl
