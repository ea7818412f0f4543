-- ===== src/Kv/Termination/Values.antt =====
-- The loop over the attributes.
use cypress.Base.{
  ℕ, zero, suc, ◌<◌, ◌≤◌, Option, none, some, [], ◌∷◌, ◌==◌, length, arith, inl, inr, Bool-cases,
  Option-cases,
}
use cypress.Base.Text.{Text}
use cypress.Base.Int.{ℤ}
use cypress.Base.Results.{Result, ok, Panic, ◌>>=◌}
use cypress.Message.Types.{Message}
use cypress.Message.Attributes.{add_int, add_float, add_string, add_interval}
use cypress.Message.Intervals.{parse_int64, parse_subsecond}
use cypress.Kv.Scanning.{
  Kind, Lexeme, eof_token, ident, int_token, float_token, char_token, string_token, raw_string,
  other, Scan, is_float, is_mark,
}
use cypress.Kv.Parse.{
  Stop, lift, unquote, give_up, read_name, interval_of, read_value, read_pair_value, read_pair,
  read_pairs, split_point,
}
use cypress.Kv.Termination.{TakesCharacters, Within, then_Within, lifted_lem, wider}
use cypress.Kv.Termination.Names.{scan_le, bad_from, read_name-Within}

module _ {T : Type 0} (scan : Scan) (takes : TakesCharacters scan) (parse_int : Text → Option ℤ)
    (parse_float : Text → Option ℕ) where
  interval_of-Within :
      (fuel n : ℕ) (m : Message T) (key : Text) (lex : Lexeme) (t : Text)
      → n < fuel
      → length t ≤ n
      → Within n (interval_of scan parse_int parse_float fuel m key lex t)
  unfolding interval_of
  interval_of-Within fuel n m key lex t l h = elim (Bool-cases (is_float lex.kind)) [
    | inr wrong ↦ rw wrong (bad_from scan takes (Message T) fuel n t (omega (arith, h)) h)
    | inl float ↦ elim (Option-cases (split_point lex.text)) [
      | inl e ↦ rw (float, e) (bad_from scan takes (Message T) fuel n t (omega (arith, h)) h)
      | inr (parts, e) ↦
          rw (float, e)
            (lifted_lem n (parse_subsecond parts.1) _ (λ nsec.
              lifted_lem n (add_interval m key (parse_int64 parts.0) nsec) (λ o. ok (o, t))
                (λ o. h)))
    ]
  ]

  added_Within :
      (n : ℕ) (r : Result Panic (Message T)) (t : Text)
      → length t ≤ n
      → Within n (lift r >>= λ o. ok (o, t))
  added_Within n r t h = lifted_lem n r (λ o. ok (o, t)) (λ o. h)

  -- An int that is not read leads to the next line.
  int_Within :
      (fuel n : ℕ) (m : Message T) (key w t : Text)
      → n < fuel
      → length t ≤ n
      → Within n (elim (parse_int w) as (λ x. Result Stop (Message T × Text)) [
        | none ↦ give_up scan fuel t
        | some i ↦ lift (add_int m key i) >>= λ o. ok (o, t)
      ])
  int_Within fuel n m key w t l h = elim (Option-cases (parse_int w)) [
    | inl e ↦ rw e (bad_from scan takes (Message T) fuel n t (omega (arith, h)) h)
    | inr (i, e) ↦ rw e (added_Within n (add_int m key i) t h)
  ]

  read_value-Within :
      (fuel n : ℕ) (m : Message T) (key : Text) (k : Kind) (w t : Text)
      → n < fuel
      → length t ≤ n
      → Within n (read_value scan parse_int parse_float fuel m key k w t)
  unfolding read_value
  read_value-Within fuel n m key (other c) w t l h = elim (Bool-cases (c == b':')) [
    | inl colon ↦ rw colon (
        interval_of-Within fuel n m key (scan t).0 (scan t).1 l
          (omega (arith, h, scan_le scan takes t)))
    | inr wrong ↦ rw wrong (bad_from scan takes (Message T) fuel n t (omega (arith, h)) h)
  ]
  read_value-Within fuel n m key int_token w t l h = int_Within fuel n m key w t l h
  read_value-Within fuel n m key float_token w t l h = elim (Option-cases (parse_float w)) [
    | inl e ↦ rw (read_value, e) (int_Within fuel n m key w t l h)
    | inr (f, e) ↦ rw (read_value, e) (added_Within n (add_float m key f) t h)
  ]
  read_value-Within fuel n m key string_token w t l h =
      added_Within n (unquote w >>= add_string m key) t h
  read_value-Within fuel n m key raw_string w t l h =
      added_Within n (unquote w >>= add_string m key) t h
  read_value-Within fuel n m key ident w t l h = added_Within n (add_string m key w) t h
  read_value-Within fuel n m key char_token w t l h = added_Within n (add_string m key w) t h
  read_value-Within fuel n m key eof_token w t l h =
      bad_from scan takes (Message T) fuel n t (omega (arith, h)) h

  read_pair_value-Within :
      (fuel n : ℕ) (m : Message T) (key t : Text)
      → n < fuel
      → length t ≤ n
      → Within n (read_pair_value scan parse_int parse_float fuel m key t)
  unfolding read_pair_value
  read_pair_value-Within fuel n m key t l h = elim (Bool-cases (is_mark b'=' (scan t).0.kind)) [
    | inl sign ↦ rw sign (
        read_value-Within fuel n m key (scan (scan t).1).0.kind (scan (scan t).1).0.text
          (scan (scan t).1).1 l
          (omega (arith, h, scan_le scan takes t, scan_le scan takes (scan t).1)))
    | inr wrong ↦ rw wrong (
        bad_from scan takes (Message T) fuel n (scan t).1 (omega (arith, h, scan_le scan takes t))
          (omega (arith, h, scan_le scan takes t)))
  ]

  pub read_pairs-Within :
      (fuel n : ℕ) (m : Message T) (t : Text)
      → length t < fuel
      → length t ≤ n
      → Within n (read_pairs scan parse_int parse_float fuel m t)
  unfolding read_pairs read_pair
  read_pairs-Within zero n m t l h = absurd (omega (arith, l))
  read_pairs-Within (suc fuel) n m [] l h = h
  read_pairs-Within (suc fuel) n m (c ∷ t) l h = elim (Bool-cases (c == 10)) [
    | inl stop ↦ rw stop h
    | inr go ↦
        let u = (scan (c ∷ t)).1 in
        let short : length u ≤ length t = takes.shorter c t in
        rw go (
          wider (length t) n _ (omega (arith, h)) (
            then_Within (length t) (read_pair scan parse_int parse_float fuel m (c ∷ t)) _
              (then_Within (length t) (read_name scan fuel (scan (c ∷ t)).0 u) _
                (read_name-Within scan takes fuel (length t) (scan (c ∷ t)).0 u
                  (omega (arith, short)) short)
                (λ key v k. read_pair_value-Within fuel (length t) m key v (omega arith) k))
              (λ o v k. read_pairs-Within fuel (length t) o v (omega (arith, k)) k)))
  ]
