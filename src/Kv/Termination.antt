-- ===== src/Kv/Termination.antt =====
-- Results of the loops of `KVParser` that are not for lack of fuel.
pub mod Starts
pub mod Names
pub mod Values
pub mod Messages
use cypress.Base.{
  ℕ, zero, suc, ◌+◌, ◌<◌, ◌≤◌, ◌≡◌, ◌≢◌, refl, ap, ◌∙◌, Bool, true, false, ◌||◌, Option, none, some,
  List, [], ◌∷◌, ◌++◌, ◌==◌, length, subst, if◌then◌else◌, arith, inl, inr, Bool-cases,
  Option-cases,
}
use cypress.Base.Text.{Text, codes}
use cypress.Base.Int.{ℤ}
use cypress.Base.Results.{Result, ok, err, Panic, ◌>>=◌, Result-cases}
use cypress.Message.Types.{Message, Tag}
use cypress.Message.Attributes.{add_int, add_float, add_string, add_interval}
use cypress.Message.Intervals.{parse_int64, parse_subsecond}
use cypress.Kv.Scanning.{
  Kind, Lexeme, eof_token, ident, int_token, float_token, char_token, string_token, raw_string,
  other, Scan, is_ident, is_string, is_float, is_mark, is_eof,
}
use cypress.Kv.Parse.{
  Stop, again, ended, endless, spent, panicked, lift, unquote, give_up, begins, dotted, read_name,
  read_tag_value, read_tag, read_tags, interval_of, read_value, read_pair_value, read_pair,
  read_pairs, at_end, split_point,
}
use cypress.Kv.Generate.{
  until_space, skip_to_start, bare_line, find_start, Start, message_at, bare_message, no_more,
  read_flag, read_label, read_session, read_all_tags, read_body, after_flag, read_entry, new_log,
  generate_within, generate,
}

-- `Scan` takes at least a character, unless it is at the end of the input.
pub record TakesCharacters (scan : Scan) : Type 0 where
  pub shorter : (c : ℕ) (t : Text) → length (scan (c ∷ t)).1 ≤ length t
  pub at_eof : (scan []).0.kind ≡ eof_token
  pub stays : (scan []).1 ≡ []

-- A stop that is not for lack of fuel, and a result that leaves at most `n` characters.
abbrev pub StopsWithin : ℕ → Stop → Type 0
StopsWithin n (again u) = length u ≤ n
StopsWithin n ended = Unit
StopsWithin n endless = Unit
StopsWithin n spent = ⊥
StopsWithin n (panicked p) = Unit

abbrev pub Within {ℓ} : {A : Type ℓ} → ℕ → Result Stop (A × Text) → Type 0
Within n (ok (a, u)) = length u ≤ n
Within n (err e) = StopsWithin n e

pub then_Within {ℓ κ} :
    {A : Type ℓ} {B : Type κ} (n : ℕ) (r : Result Stop (A × Text))
    (f : A × Text → Result Stop (B × Text))
    → Within n r
    → ((a : A) (u : Text) → length u ≤ n → Within n (f (a, u)))
    → Within n (r >>= f)
then_Within n (ok (a, u)) f h k = k a u h
then_Within n (err e) f h k = h

pub lifted_lem {ℓ κ} :
    {A : Type ℓ} {B : Type κ} (n : ℕ) (r : Result Panic A) (f : A → Result Stop (B × Text))
    → ((a : A) → Within n (f a))
    → Within n (lift r >>= f)
lifted_lem n (ok a) f k = k a
lifted_lem n (err p) f k = tt

pub wider {ℓ} :
    {A : Type ℓ} (m n : ℕ) (r : Result Stop (A × Text)) → m ≤ n → Within m r → Within n r
wider m n (ok (a, u)) l h = omega (arith, h)
wider m n (err (again u)) l h = omega (arith, h)
wider m n (err ended) l h = h
wider m n (err endless) l h = h
wider m n (err spent) l h = h
wider m n (err (panicked p)) l h = h
