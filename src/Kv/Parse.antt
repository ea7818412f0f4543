-- ===== src/Kv/Parse.antt =====
-- kv.go: `KVParser`. The state is the text that is left. The loops over tokens run on fuel.
use cypress.Base.{
  ℕ, zero, suc, ◌-◌, ◌++◌, Bool, true, false, ◌||◌, Option, none, some, List, [], ◌∷◌, ◌==◌, leb,
  length, take, drop, if◌then◌else◌,
}
use cypress.Base.Text.{Text}
use cypress.Base.Int.{ℤ}
use cypress.Base.Results.{Result, ok, err, Panic, slice_bounds, ◌>>=◌}
use cypress.Message.Types.{Message, Tag}
use cypress.Message.Attributes.{add_int, add_float, add_string, add_interval}
use cypress.Message.Intervals.{parse_int64, parse_subsecond}
use cypress.Kv.Scanning.{
  Kind, eof_token, ident, int_token, float_token, char_token, string_token, raw_string, other,
  Lexeme, Scan, is_ident, is_string, is_float, is_mark, is_eof,
}

-- Why there is no message: the parser begins again at a text, `io.EOF`, a loop that reads on and on at the
-- end of the input, no fuel, or a panic.
pub data Stop : Type 0 where
  again : Text → Stop
  ended endless spent : Stop
  panicked : Panic → Stop

abbrev pub lift {ℓ} : {A : Type ℓ} → Result Panic A → Result Stop A
lift (ok a) = ok a
lift (err p) = err (panicked p)

-- `text[1 : len(text)-1]`
unfoldable pub unquote : Text → Result Panic Text
unquote s = if leb 2 (length s) then ok (take (length s - 2) (drop 1 s)) else err slice_bounds

-- The digits in front of the first point, and those behind it.
unfoldable pub split_point : Text → Option (Text × Text)
split_point [] = none
split_point (c ∷ cs) =
    let rest = split_point cs in
    if c == b'.' then some ([], cs) else elim rest [ none ↦ none | some (a, b) ↦ some (c ∷ a, b) ]

abbrev pub begins : ℕ → Text → Bool
begins d [] = false
begins d (c ∷ cs) = c == d

-- The end of the line, or of the input.
abbrev pub at_end : Text → Bool
at_end [] = true
at_end (c ∷ cs) = c == 10

module _ (scan : Scan) where
  -- `skipToNewline` and the way back to `restart`.
  unfoldable pub give_up {ℓ} : {A : Type ℓ} → ℕ → Text → Result Stop A
  give_up zero t = err spent
  give_up (suc fuel) t =
      let rest = give_up fuel (scan t).1 in
      if is_mark 10 (scan t).0.kind || is_eof (scan t).0.kind then err (again (scan t).1) else rest

  -- The loop that joins the parts of a name.
  unfoldable pub dotted : ℕ → Text → Text → Result Stop (Text × Text)
  unfolding give_up
  dotted zero name t = err spent
  dotted (suc fuel) name t =
      let (part, u) = scan (scan t).1 in
      let rest = dotted fuel (name ++ b'.' ∷ part.text) u in
      if begins b'.' t then (if is_ident part.kind then rest else give_up fuel u) else ok (name, t)

  -- The name of a tag or the key of an attribute, whose first token is scanned.
  unfoldable pub read_name : ℕ → Lexeme → Text → Result Stop (Text × Text)
  unfolding dotted unquote give_up
  read_name fuel lex t =
      if is_ident lex.kind
      then dotted fuel lex.text t
      else (if is_string lex.kind
          then (lift (unquote lex.text) >>= λ w. ok (w, t))
          else give_up fuel t)

  -- The sign and the value of a tag.
  unfoldable pub read_tag_value : ℕ → Text → Text → Result Stop (Tag × Text)
  unfolding unquote give_up
  read_tag_value fuel key t =
      let (sign, u) = scan t in
      let (lex, v) = scan u in
      if is_mark b'=' sign.kind
      then (if is_string lex.kind
          then (lift (unquote lex.text) >>= λ text.
              ok (record { name = key; value = some text }, v))
          else (if is_ident lex.kind
              then ok (record { name = key; value = some lex.text }, v)
              else give_up fuel v))
      else give_up fuel u

  -- One round of the loop over the tags, whose first token is scanned.
  unfoldable pub read_tag : ℕ → Lexeme → Text → Result Stop (Tag × Text)
  unfolding read_name read_tag_value
  read_tag fuel lex t =
      let (name, u) = scan t in
      if is_mark b'!' lex.kind
      then (if is_ident name.kind
          then ok (record { name = name.text; value = none }, u)
          else give_up fuel u)
      else (read_name fuel lex t >>= λ (key, v). read_tag_value fuel key v)

  unfoldable pub read_tags : ℕ → Text → Result Stop (List Tag × Text)
  unfolding read_tag
  read_tags zero t = err spent
  read_tags (suc fuel) t =
      let (lex, u) = scan t in
      if is_mark b']' lex.kind
      then ok ([], u)
      else (read_tag fuel lex u >>= λ (tag, v).
          read_tags fuel v >>= λ (tags, w). ok (tag ∷ tags, w))

  -- `strconv.ParseInt(s, 0, 64)` and `strconv.ParseFloat(s, 64)` are of Go's library.
  module _ {T : Type 0} (parse_int : Text → Option ℤ) (parse_float : Text → Option ℕ) where
    -- The case of a colon, with the token behind it.
    unfoldable pub interval_of :
        ℕ → Message T → Text → Lexeme → Text → Result Stop (Message T × Text)
    unfolding give_up split_point add_interval parse_subsecond parse_int64
    interval_of fuel m key lex t =
        if is_float lex.kind
        then elim (split_point lex.text) [
          | none ↦ give_up fuel t
          | some (tsec, tssec) ↦ lift (parse_subsecond tssec) >>= λ nsec.
              lift (add_interval m key (parse_int64 tsec) nsec) >>= λ n. ok (n, t)
        ]
        else give_up fuel t

    -- The switch over the token of the value, with the text of the token and what is behind it.
    unfoldable pub read_value :
        ℕ → Message T → Text → Kind → Text → Text → Result Stop (Message T × Text)
    unfolding interval_of unquote add_int add_float add_string give_up
    read_value fuel m key (other c) w t =
        if c == b':' then interval_of fuel m key (scan t).0 (scan t).1 else give_up fuel t
    read_value fuel m key int_token w t = elim (parse_int w) [
      | none ↦ give_up fuel t
      | some i ↦ lift (add_int m key i) >>= λ n. ok (n, t)
    ]
    read_value fuel m key float_token w t = elim (parse_float w) [
      | none ↦ elim (parse_int w) [
        | none ↦ give_up fuel t
        | some i ↦ lift (add_int m key i) >>= λ n. ok (n, t)
      ]
      | some f ↦ lift (add_float m key f) >>= λ n. ok (n, t)
    ]
    read_value fuel m key string_token w t =
        lift (unquote w >>= add_string m key) >>= λ n. ok (n, t)
    read_value fuel m key raw_string w t = lift (unquote w >>= add_string m key) >>= λ n. ok (n, t)
    read_value fuel m key ident w t = lift (add_string m key w) >>= λ n. ok (n, t)
    read_value fuel m key char_token w t = lift (add_string m key w) >>= λ n. ok (n, t)
    read_value fuel m key eof_token w t = give_up fuel t

    -- The sign and the value of an attribute.
    unfoldable pub read_pair_value : ℕ → Message T → Text → Text → Result Stop (Message T × Text)
    unfolding read_value give_up
    read_pair_value fuel m key t =
        let (sign, u) = scan t in
        let (lex, v) = scan u in
        if is_mark b'=' sign.kind then read_value fuel m key lex.kind lex.text v else give_up fuel u

    -- One round of the loop over the attributes.
    unfoldable pub read_pair : ℕ → Message T → Text → Result Stop (Message T × Text)
    unfolding read_name read_pair_value
    read_pair fuel m t =
        let (lex, u) = scan t in read_name fuel lex u >>= λ (key, v). read_pair_value fuel m key v

    unfoldable pub read_pairs : ℕ → Message T → Text → Result Stop (Message T × Text)
    unfolding read_pair
    read_pairs zero m t = err spent
    read_pairs (suc fuel) m t =
        if at_end t then ok (m, t) else (read_pair fuel m t >>= λ (n, u). read_pairs fuel n u)
