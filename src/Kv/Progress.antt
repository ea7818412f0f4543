-- ===== src/Kv/Progress.antt =====
-- `Scan` of scanner/scanner.go takes a character at least, unless it is at the end of the input.
use cypress.Base.{
  ℕ, ◌≤◌, ◌≡◌, ◌≢◌, refl, Option, Bool, true, false, ◌||◌, [], ◌∷◌, ◌==◌, length, inl, inr,
  Bool-cases, arith,
}
use cypress.Base.Text.{Text}
use cypress.Base.Int.{ℤ}
use cypress.Base.Results.{ok, err}
use cypress.Message.Types.{Message}
use cypress.Kv.Parse.{spent}
use cypress.Kv.Generate.{generate}
use cypress.Kv.Termination.{TakesCharacters}
use cypress.Kv.Termination.Messages.{generate_terminates}
use cypress.Kv.Scanner.{
  span, is_decimal, is_hex, scan_fraction, signed_digits, scan_exponent, float_or_int,
  scan_mantissa, scan_number, scan_string, string_of, scan_point, ident_start, ident_part,
  scan_identifier, scan,
}

span-shorter : (p : ℕ → Bool) (t : Text) → length (span p t).1 ≤ length t
unfolding span
span-shorter p [] = omega arith
span-shorter p (c ∷ t) = ground (arith, span-shorter p t)

fraction-shorter : (t : Text) → length (scan_fraction t).1 ≤ length t
unfolding scan_fraction
fraction-shorter [] = omega arith
fraction-shorter (c ∷ t) = ground (arith, span-shorter is_decimal t)

signed-shorter : (t : Text) → length (signed_digits t).1 ≤ length t
unfolding signed_digits
signed-shorter [] = omega arith
signed-shorter (c ∷ t) = ground (arith, span-shorter is_decimal t, span-shorter is_decimal (c ∷ t))

exponent-shorter : (t : Text) → length (scan_exponent t).1 ≤ length t
unfolding scan_exponent
exponent-shorter [] = omega arith
exponent-shorter (c ∷ t) = ground (arith, signed-shorter t)

float_or_int-shorter : (ds t : Text) → length (float_or_int ds t).1 ≤ length t
unfolding float_or_int
float_or_int-shorter ds [] = omega arith
float_or_int-shorter ds (c ∷ t) =
    ground (arith, exponent-shorter (scan_fraction (c ∷ t)).1, fraction-shorter (c ∷ t))

-- The first digit is taken.
mantissa-shorter :
    (c : ℕ) (t : Text) → is_decimal c ≡ true → length (scan_mantissa (c ∷ t)).1 ≤ length t
unfolding scan_mantissa span
mantissa-shorter c t h =
    let digits = span is_decimal t in
    rw h (omega (arith, float_or_int-shorter (c ∷ digits.0) digits.1, span-shorter is_decimal t))

number-shorter : (c : ℕ) (t : Text) → is_decimal c ≡ true → length (scan_number c t).1 ≤ length t
unfolding scan_number
number-shorter c [] h = mantissa-shorter c [] h
number-shorter c (d ∷ ds) h = ground (arith, mantissa-shorter c (d ∷ ds) h, span-shorter is_hex ds)

string-shorter : (escape : Bool) (t : Text) → length (scan_string escape t).1 ≤ length t
unfolding scan_string
string-shorter escape [] = omega arith
string-shorter escape (c ∷ t) = elim (Bool-cases escape) [
  | inl on ↦ ground (arith, string-shorter false t, string-shorter true t)
  | inr off ↦ ground (arith, string-shorter false t, string-shorter true t)
]

string_of-shorter : (w t : Text) → length (string_of w t).1 ≤ length t
unfolding string_of
string_of-shorter w [] = omega arith
string_of-shorter w (q ∷ u) = omega arith

point-shorter : (t : Text) → length (scan_point t).1 ≤ length t
unfolding scan_point
point-shorter [] = omega arith
point-shorter (c ∷ t) =
    ground (arith, exponent-shorter (span is_decimal (c ∷ t)).1, span-shorter is_decimal (c ∷ t))

module _ (wide_letter wide_digit : ℕ → Bool) where
  identifier-shorter :
      (c : ℕ) (t : Text) → length (scan_identifier wide_letter wide_digit c t).1 ≤ length t
  unfolding scan_identifier
  identifier-shorter c t = span-shorter (ident_part wide_letter wide_digit) t

  scan_shorter :
      (c : ℕ) (t : Text)
      → length (scan wide_letter wide_digit t).1 ≤ length t
      → length (scan wide_letter wide_digit (c ∷ t)).1 ≤ length t
  unfolding scan
  scan_shorter c t h = elim (Bool-cases (c == b' ' || c == 9)) [
    | inl blank ↦ rw blank h
    | inr dark ↦ elim (Bool-cases (ident_start wide_letter wide_digit c)) [
      | inl letter ↦ rw (dark, letter) (identifier-shorter c t)
      | inr other_char ↦ elim (Bool-cases (is_decimal c)) [
        | inl digit ↦ rw (dark, other_char, digit) (number-shorter c t digit)
        | inr no_digit ↦ elim (Bool-cases (c == b'"')) [
          | inl quote ↦
              let body = scan_string false t in
              rw (dark, other_char, no_digit, quote)
                (omega (arith, string_of-shorter body.0 body.1, string-shorter false t))
          | inr no_quote ↦ elim (Bool-cases (c == b'.')) [
            | inl point ↦ rw (dark, other_char, no_digit, no_quote, point) (point-shorter t)
            | inr mark ↦ rw (dark, other_char, no_digit, no_quote, mark) (omega arith)
          ]
        ]
      ]
    ]
  ]

  scan_le : (t : Text) → length (scan wide_letter wide_digit t).1 ≤ length t
  unfolding scan
  scan_le [] = omega arith
  scan_le (c ∷ t) = omega (arith, scan_shorter c t (scan_le t))

  scan-TakesCharacters : TakesCharacters (scan wide_letter wide_digit)
  unfolding scan
  scan-TakesCharacters = record {
    shorter = λ c t. scan_shorter c t (scan_le t);
    at_eof = refl;
    stays = refl;
  }

  -- With `Scan` of the package scanner, and whatever the parsers of numbers and time stamps give: fuel
  -- of one more than the characters of the text is never used up by `Generate`, by its loops over
  -- lines, messages, tags, attributes and the rest of a line that is given up; and what it leaves
  -- behind a message is no longer than the text. The two loops that look for the space behind a time
  -- stamp or a session take no fuel: where the input ends before the space they do not end, for which
  -- the result `endless` stands.
  pub generate_unspent :
      {T : Type 0} (parse_int : Text → Option ℤ) (parse_float : Text → Option ℕ)
      (parse_label : Text → Option T) (bare : Bool) (now : T) (t : Text)
      → (generate (scan wide_letter wide_digit) parse_int parse_float parse_label bare now t
          ≢ err spent)
        × ((m : Message T) (u : Text)
            → generate (scan wide_letter wide_digit) parse_int parse_float parse_label bare now t
              ≡ ok (m, u)
            → length u ≤ length t)
  generate_unspent parse_int parse_float parse_label bare now t =
      generate_terminates (scan wide_letter wide_digit) scan-TakesCharacters parse_int parse_float
        parse_label bare now t
