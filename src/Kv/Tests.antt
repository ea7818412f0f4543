-- ===== src/Kv/Tests.antt =====
-- Lines on small inputs, with letters and digits of ASCII only.
use cypress.Base.{
  ℕ, ◌≡◌, ◌≢◌, ◌≤◌, length, refl, ap, Bool, true, false, Option, none, some, List, [], ◌∷◌, ◌++◌,
  All, arith,
}
use cypress.Base.Text.{Text, codes, Without}
use cypress.Base.Int.{ℤ, pos}
use cypress.Base.Decimal.{decimal, digits_value, digits_value-decimal, IsDigit, decimal-IsDigit}
use cypress.Base.Results.{Result, ok, err, slice_bounds}
use cypress.Message.Types.{Message, Tag}
use cypress.Message.Symbols.{version_symbols, find_index}
use cypress.Message.Attributes.{Value, add_all, int_value, string_value, interval_value, bool_value}
use cypress.Kv.Print.{kv_string}
use cypress.Kv.Parse.{Stop, ended, endless, spent, panicked}
use cypress.Kv.Generate.{generate}
use cypress.Kv.Scanner.{
  scan, span, scan_identifier, scan_number, scan_mantissa, scan_string, string_of, scan_point,
  float_or_int, scan_fraction, scan_exponent, signed_digits,
}
use cypress.Kv.Scanning.{Scan, float_token, string_token}
use cypress.Kv.Progress.{generate_unspent}
use cypress.Kv.Printed.{scanned_round_trip}
use cypress.Kv.PairRoundTrip.{all_back}
use cypress.Kv.BodyRoundTrip.{IsLabel, bare_message_of}
use cypress.Kv.Unended.{generate_endless}

abbrev neither : ℕ → Bool
neither c = false

abbrev ascii_scan : Scan
ascii_scan = scan neither neither

octal_float :
    ascii_scan (codes " 08.5e-3x")
    ≡ (record { kind = float_token; text = codes "08.5e-3" }, codes "x")
unfolding scan span scan_number scan_mantissa float_or_int scan_fraction scan_exponent signed_digits
octal_float = refl

escaped_quote :
    ascii_scan (codes "\"a\\\"b\" c")
    ≡ (record { kind = string_token; text = codes "\"a\\\"b\"" }, codes " c")
unfolding scan scan_string string_of
escaped_quote = refl

abbrev no_int : Text → Option ℤ
no_int t = some (pos 7)

abbrev no_float : Text → Option ℕ
no_float t = none

abbrev stamp_of : Text → Option ℕ
stamp_of t = some 1

abbrev parse : Text → Result Stop (Message ℕ × Text)
parse = generate ascii_scan no_int no_float stamp_of false 0

negative_int : parse (codes "> @4 a=-5") ≡ err ended
unfolding generate scan span scan_identifier scan_number scan_mantissa scan_string string_of
    scan_point float_or_int
negative_int = refl

-- A tag without a value in front of one with a value.
bare_tag_first : parse (codes "> @4 [!ab=\"c\"] d=\"e\"") ≡ err ended
unfolding generate scan span scan_identifier scan_number scan_mantissa scan_string string_of
    scan_point float_or_int
bare_tag_first = refl

open_quote : parse (codes "> @4 a=\"") ≡ err (panicked slice_bounds)
unfolding generate scan span scan_identifier scan_number scan_mantissa scan_string string_of
    scan_point float_or_int
open_quote = refl

abbrev label : ℕ → Text
label t = b'@' ∷ decimal t

abbrev parse_label : Text → Option ℕ
parse_label [] = none
parse_label (c ∷ cs) = some (digits_value cs)

digits-unspaced : (ds : Text) → All IsDigit ds → Without b' ' ds
digits-unspaced [] h = tt
digits-unspaced (c ∷ ds) (h, hs) = (omega arith, digits-unspaced ds hs)

labels : IsLabel ℕ label parse_label
labels = record {
  digits = decimal;
  marked = λ t. refl;
  unspaced = λ t. digits-unspaced (decimal t) (decimal-IsDigit t);
  parsed = λ t. ap some (digits_value-decimal t);
}

abbrev parse_int : Text → Option ℤ
parse_int t = some (pos (digits_value t))

abbrev host : Tag
host = record { name = codes "h"; value = some (codes "x") }

abbrev up : Tag
up = record { name = codes "u"; value = none }

abbrev pairs : List (Text × Value)
pairs =
    (codes "a", int_value (pos 5))
    ∷ (codes "b", bool_value true)
    ∷ (codes "c", string_value (codes "y"))
    ∷ (codes "d", interval_value (record { seconds = 1; nanoseconds = 500_000_000 }))
    ∷ []

abbrev base : Message ℕ
base = bare_message_of 4 1 (some (codes "s")) (host ∷ up ∷ [])

abbrev no_float_text : ℕ → Text
no_float_text f = []

printed_line :
    (m : Message ℕ) × (add_all base pairs ≡ ok m)
    × (kv_string no_float_text label m
        ≡ ok (codes ">! @4 \\s [h=\"x\" !u] a=5 b=true c=\"y\" d=:1.5"))
unfolding add_all kv_string version_symbols find_index
printed_line = (_, refl, refl)

scanned_round_trip_example :
    (m n : Message ℕ) × (line : Text) × (add_all base pairs ≡ ok m)
    × (kv_string no_float_text label m ≡ ok line)
    × (add_all base (all_back pairs) ≡ ok n)
    × (generate ascii_scan parse_int no_float parse_label false 0 (line ++ 10 ∷ [])
        ≡ ok (n, 10 ∷ []))
scanned_round_trip_example =
    scanned_round_trip ℕ neither neither parse_int no_float parse_label no_float_text label labels
      (λ n h. ap (λ d. some (pos d)) (digits_value-decimal n)) false 0 4 1 (some (codes "s"))
      (host ∷ up ∷ []) pairs (10 ∷ []) (omega arith) (omega arith, tt)
      (
        (refl, tt),
        (((omega arith, omega arith, omega arith), tt)),
        (λ e. absurd (ground arith)),
        ((refl, tt), tt, (λ e. refl), tt),
      )
      (
        (refl, tt),
        omega arith,
        (
          (refl, tt),
          tt,
          (
            (refl, tt),
            ((omega arith, omega arith, omega arith), tt),
            ((refl, tt), (omega arith, omega arith, omega arith), tt),
          ),
        ),
      )
      (λ e. absurd (ground arith)) refl

generate_endless_example :
    (line : Text) × (kv_string no_float_text label (bare_message_of 4 0 (some (codes "s")) [])
      ≡ ok line)
    × (generate ascii_scan parse_int no_float parse_label false 0 (line ++ 10 ∷ []) ≡ err endless)
generate_endless_example =
    generate_endless ℕ ascii_scan parse_int no_float parse_label no_float_text label labels false 0
      4 0 (some (codes "s")) (10 ∷ []) (omega arith) (omega arith, tt) (omega arith, tt)

-- A line that is given up, with another behind it.
generate_unspent_example :
    (generate ascii_scan parse_int no_float parse_label false 0 (codes "> @4 a=-5\n> @4 b=6")
      ≢ err spent)
    × ((m : Message ℕ) (u : Text)
        → generate ascii_scan parse_int no_float parse_label false 0 (codes "> @4 a=-5\n> @4 b=6")
          ≡ ok (m, u)
        → length u ≤ 18)
generate_unspent_example =
    generate_unspent neither neither parse_int no_float parse_label false 0
      (codes "> @4 a=-5\n> @4 b=6")
