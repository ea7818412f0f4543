-- ===== src/Message/Symbols.antt =====
-- symbols.go: the table of preset attribute keys, one for each message version.
pub mod Laws
use cypress.Base.{
  ℕ, suc, ◌%◌, ◌^◌, true, false, Option, none, some, List, [], ◌∷◌, ◌++◌, length, get_elem?, ltb,
  if◌then◌else◌,
}
use cypress.Base.Results.{index}
use cypress.Base.Text.{Text, codes, same}
use cypress.Base.Decimal.{decimal}
use cypress.Base.Results.{Result, ok, err, Panic, index_out_of_range, already_assigned, ◌>>=◌}

pub record Symbols : Type 0 where
  pub str_to_index : List (Text × ℕ)
  pub index_to_str : List Text

-- A read of the Go map.
unfoldable pub lookup : Text → List (Text × ℕ) → Option ℕ
unfolding same
lookup k [] = none
lookup k ((j, v) ∷ m) = if same j k then some v else lookup k m

unfoldable pub new_symbols : Symbols
new_symbols = record { str_to_index = []; index_to_str = codes "-" ∷ [] }

-- One round of `Append`.
unfoldable pub append_one : Symbols → Text → Result Panic Symbols
unfolding lookup
append_one s str = elim (lookup str s.str_to_index) [
  | some _ ↦ err already_assigned
  | none ↦ ok (record {
    str_to_index = (str, length s.index_to_str % 2 ^ 32) ∷ s.str_to_index;
    index_to_str = s.index_to_str ++ str ∷ [];
  })
]

unfoldable pub append : Symbols → List Text → Result Panic Symbols
unfolding append_one
append s [] = ok s
append s (str ∷ strs) = append_one s str >>= λ t. append t strs

unfoldable pub from_index : Symbols → ℕ → Result Panic Text
unfolding decimal
from_index s i =
    if ltb (length s.index_to_str % 2 ^ 32) i
    then ok (codes "symbol" ++ decimal i)
    else index s.index_to_str i

unfoldable pub find_index : Symbols → Text → Option ℕ
unfolding lookup
find_index s str = lookup str s.str_to_index

-- `init`: the table of version 1, which serves version 0 too.
unfoldable pub v1 : Result Panic Symbols
unfolding append new_symbols
v1 = do
  s ← append new_symbols (codes "message" ∷ codes "value" ∷ codes "source" ∷ [])
  t ← append s (codes "host" ∷ codes "facility" ∷ codes "severity" ∷ codes "tag" ∷ codes "pid" ∷ [])
  append t (codes "name" ∷ codes "type" ∷ [])

unfoldable pub version_symbols : List Symbols
unfolding v1
version_symbols = elim v1 [ ok t ↦ t ∷ t ∷ [] | err _ ↦ [] ]
