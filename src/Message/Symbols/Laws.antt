-- ===== src/Message/Symbols/Laws.antt =====
-- The two directions of a symbol table agree.
use native.Mathlib.Nat.{mod-eq_of_lt}
use cypress.Base.{
  if◌then◌else◌, Bool-cases, get_elem?-append_last, get_elem?-append_left, get_elem?-append_cases,
  get_elem?-lt, get_elem?-length, subst, ◌↔◌, ℕ, zero, suc, ◌+◌, ◌^◌, ◌<◌, ◌≡◌, refl, inl, inr,
  none, some, List, [], ◌∷◌, ◌++◌, length, length-append, get_elem?, arith, Option-cases,
}
use cypress.Base.Decimal.{decimal}
use cypress.Base.Text.{Text, codes, same, same→eq, same_refl}
use cypress.Base.Results.{Result-cases, ok, err, index_out_of_range}
use cypress.Message.Symbols.{
  Symbols, new_symbols, append_one, append, from_index, find_index, version_symbols,
}

-- A symbol is found at its place in the list, and every listed name but the reserved first is found.
pub record IsConsistent (s : Symbols) : Type 0 where
  pub in_range : 0 < length s.index_to_str
  pub listed :
      (str : Text) (i : ℕ)
      → find_index s str ≡ some i
      → (0 < i) × (get_elem? s.index_to_str i ≡ some str)
  pub found :
      (str : Text) (i : ℕ)
      → 0 < i
      → get_elem? s.index_to_str i ≡ some str
      → find_index s str ≡ some i

no_second :
    (str : Text) (i : ℕ)
    → 0 < i
    → get_elem? new_symbols.index_to_str i ≡ some str
    → find_index new_symbols str ≡ some i
unfolding new_symbols
no_second str zero h e = absurd (omega arith)
no_second str (suc i) h e = cc

new_symbols-IsConsistent : IsConsistent new_symbols
unfolding new_symbols find_index
new_symbols-IsConsistent = record {
  in_range = omega arith;
  listed = λ str i e. cc;
  found = no_second;
}

module _ (s : Symbols) (str : Text) (c : IsConsistent s) (h : length s.index_to_str < 2 ^ 32)
    (fresh : find_index s str ≡ none) where
  abbrev grown : Symbols
  grown = record {
    str_to_index = (str, length s.index_to_str) ∷ s.str_to_index;
    index_to_str = s.index_to_str ++ str ∷ [];
  }

  find_grown :
      (q : Text)
      → find_index grown q ≡ (if same str q then some (length s.index_to_str) else find_index s q)
  unfolding find_index
  find_grown q = refl

  grown_listed :
      (q : Text) (i : ℕ)
      → find_index grown q ≡ some i
      → (0 < i) × (get_elem? grown.index_to_str i ≡ some q)
  grown_listed q i e = elim (Bool-cases (same str q)) [
    | inl hit ↦
        let at_end = get_elem?-append_last s.index_to_str str in
        ground (arith, find_grown q, same→eq str q hit, at_end, c.in_range)
    | inr miss ↦
        let (p, g) = c.listed q i (ground (arith, find_grown q)) in
        (p, get_elem?-append_left s.index_to_str (str ∷ []) i g)
  ]

  grown_found :
      (q : Text) (i : ℕ)
      → 0 < i
      → get_elem? grown.index_to_str i ≡ some q
      → find_index grown q ≡ some i
  grown_found q i p e = elim (get_elem?-append_cases s.index_to_str str i e) [
    | inl old ↦ elim (Bool-cases (same str q)) [
      | inl hit ↦ absurd (ground (arith, c.found q i p old, same→eq str q hit))
      | inr miss ↦ ground (arith, find_grown q, c.found q i p old)
    ]
    | inr (last, new) ↦ ground (arith, find_grown q, same_refl str)
  ]

  grown-IsConsistent : IsConsistent grown
  grown-IsConsistent = record {
    in_range = omega (arith, length-append s.index_to_str (str ∷ []));
    listed = grown_listed;
    found = grown_found;
  }

append_one-IsConsistent :
    (s t : Symbols) (str : Text)
    → IsConsistent s
    → length s.index_to_str < 2 ^ 32
    → append_one s str ≡ ok t
    → IsConsistent t × (length t.index_to_str ≡ length s.index_to_str + 1)
unfolding append_one find_index
append_one-IsConsistent s t str c h e = elim (Option-cases (find_index s str)) [
  | inl fresh ↦
      let small = mod-eq_of_lt h in
      let same_t : grown s str c h fresh ≡ t = ground (arith, small) in
      (
        subst IsConsistent same_t (grown-IsConsistent s str c h fresh),
        rw (← same_t) (length-append s.index_to_str (str ∷ [])),
      )
  | inr (i, old) ↦ ground arith
]

append-IsConsistent :
    (strs : List Text) (s t : Symbols)
    → IsConsistent s
    → length s.index_to_str + length strs < 2 ^ 32
    → append s strs ≡ ok t
    → IsConsistent t × (length t.index_to_str ≡ length s.index_to_str + length strs)
unfolding append
append-IsConsistent [] s t c h e = ground arith
append-IsConsistent (str ∷ strs) s t c h e = elim (Result-cases (append_one s str)) [
  | inl (m, first) ↦
      let (c', l) = append_one-IsConsistent s m str c (omega arith) first in
      let (c'', l') = append-IsConsistent strs m t c' (omega arith) (ground arith) in
      (c'', omega arith)
  | inr (p, bad) ↦ ground arith
]

pub in_range_index :
    (t : Symbols) (i : ℕ) (str : Text)
    → length t.index_to_str < 2 ^ 32
    → (from_index t i ≡ ok str) × (i < length t.index_to_str)
      ↔ get_elem? t.index_to_str i ≡ some str
unfolding from_index
in_range_index t i str h = (λ (e, l). ground (arith, mod-eq_of_lt h), λ e. back e)
  where
    back :
        get_elem? t.index_to_str i ≡ some str
        → (from_index t i ≡ ok str) × (i < length t.index_to_str)
    back e = ground (arith, mod-eq_of_lt h, get_elem?-lt t.index_to_str i e)

-- In a table built by `Append` from the empty one, a name is found under an index exactly when the
-- index is not 0, is one of the table, and `FromIndex` gives the name back for it.
pub find_index_iff :
    (strs : List Text) (t : Symbols) (str : Text) (i : ℕ)
    → length strs + 1 < 2 ^ 32
    → append new_symbols strs ≡ ok t
    → (find_index t str ≡ some i) ↔ ((0 < i) × (i < length strs + 1) × (from_index t i ≡ ok str))
find_index_iff strs t str i h e =
    let (c, l) =
      append-IsConsistent strs new_symbols t new_symbols-IsConsistent
        (unfold new_symbols in omega arith) e in
    let l' : length t.index_to_str ≡ 1 + length strs = unfold new_symbols in l in
    let at = in_range_index t i str (omega arith) in
    (
      λ f. let (p, g) = c.listed str i f in let (r, lt) = at.1 g in (p, omega arith, r),
      λ (p, lt, r). c.found str i p (at.0 (r, omega arith)),
    )

-- `FromIndex` guards against indices past the table, but not against the first of them: at the
-- length of the table it reads out of range and panics.
from_index_at_end :
    (t : Symbols)
    → length t.index_to_str < 2 ^ 32
    → (from_index t (length t.index_to_str) ≡ err index_out_of_range)
      × ((i : ℕ) → length t.index_to_str < i → from_index t i ≡ ok (codes "symbol" ++ decimal i))
unfolding from_index
from_index_at_end t h = (
  ground (arith, mod-eq_of_lt h, get_elem?-length t.index_to_str),
  λ i g. ground (arith, mod-eq_of_lt h),
)

abbrev preset : List Text
preset =
    codes "message"
    ∷ codes "value"
    ∷ codes "source"
    ∷ codes "host"
    ∷ codes "facility"
    ∷ codes "severity"
    ∷ codes "tag"
    ∷ codes "pid"
    ∷ codes "name"
    ∷ codes "type"
    ∷ []

v1_table : (t : Symbols) × (append new_symbols preset ≡ ok t) × (version_symbols ≡ t ∷ t ∷ [])
unfolding append version_symbols new_symbols
v1_table = (_, refl, refl)

-- What the tables of both versions satisfy.
pub version_symbols-IsConsistent :
    (v : ℕ)
    → v < 2
    → (t : Symbols) × (get_elem? version_symbols v ≡ some t)
      × IsConsistent t
      × (length t.index_to_str ≡ 11)
version_symbols-IsConsistent v h =
    let (t, e, both) = v1_table in
    let (c, l) =
      append-IsConsistent preset new_symbols t new_symbols-IsConsistent
        (unfold new_symbols in omega arith) e in
    (t, rw both (in_pair v t h), c, unfold new_symbols in l)
  where
    in_pair : (v : ℕ) (t : Symbols) → v < 2 → get_elem? (t ∷ t ∷ []) v ≡ some t
    in_pair zero t h = refl
    in_pair (suc zero) t h = refl
    in_pair (suc (suc v)) t h = absurd (omega arith)
