-- ===== src/Kv/Scanner.antt =====
-- scanner/scanner.go: `Scan` with the modes and the white space that `NewKVParser` sets, and its parts.
-- The text is one of characters, as `next` decodes it, without a byte order mark at its start; the
-- errors that are reported besides, to the standard error output, are not modelled.
use cypress.Base.{ℕ, Bool, false, not, ◌&&◌, ◌||◌, [], ◌∷◌, ◌++◌, ◌==◌, leb, ltb, if◌then◌else◌}
use cypress.Base.Text.{Text}
use cypress.Kv.Scanning.{
  eof_token, ident, int_token, float_token, string_token, other, Lexeme, Scan,
}

-- The characters up to the first without a property, and the rest.
unfoldable pub span : (ℕ → Bool) → Text → Text × Text
span p [] = ([], [])
span p (c ∷ cs) = let rest = span p cs in if p c then (c ∷ rest.0, rest.1) else ([], c ∷ cs)

-- `isDecimal`
abbrev pub is_decimal : ℕ → Bool
is_decimal c = leb b'0' c && leb c b'9'

-- `digitVal(ch) < 16`
abbrev pub is_hex : ℕ → Bool
is_hex c = is_decimal c || (leb b'a' c && leb c b'f') || (leb b'A' c && leb c b'F')

-- `scanFraction`
unfoldable pub scan_fraction : Text → Text × Text
unfolding span
scan_fraction [] = ([], [])
scan_fraction (c ∷ cs) =
    let digits = span is_decimal cs in if c == b'.' then (c ∷ digits.0, digits.1) else ([], c ∷ cs)

-- The sign of an exponent, and its digits.
unfoldable pub signed_digits : Text → Text × Text
unfolding span
signed_digits [] = ([], [])
signed_digits (c ∷ cs) =
    let digits = span is_decimal cs in
    if c == b'-' || c == b'+' then (c ∷ digits.0, digits.1) else span is_decimal (c ∷ cs)

-- `scanExponent`
unfoldable pub scan_exponent : Text → Text × Text
unfolding signed_digits
scan_exponent [] = ([], [])
scan_exponent (c ∷ cs) =
    let power = signed_digits cs in
    if c == b'e' || c == b'E' then (c ∷ power.0, power.1) else ([], c ∷ cs)

-- Behind the digits of a number: a float goes on with a fraction or an exponent.
unfoldable pub float_or_int : Text → Text → Lexeme × Text
unfolding scan_fraction scan_exponent
float_or_int digits [] = (record { kind = int_token; text = digits }, [])
float_or_int digits (c ∷ cs) =
    let fraction = scan_fraction (c ∷ cs) in
    let power = scan_exponent fraction.1 in
    if c == b'.' || (c == b'e' || c == b'E')
    then (record { kind = float_token; text = digits ++ fraction.0 ++ power.0 }, power.1)
    else (record { kind = int_token; text = digits }, c ∷ cs)

-- The digits of a decimal or octal number, and what follows them.
unfoldable pub scan_mantissa : Text → Lexeme × Text
unfolding span float_or_int
scan_mantissa t = let digits = span is_decimal t in float_or_int digits.0 digits.1

-- `scanNumber`
unfoldable pub scan_number : ℕ → Text → Lexeme × Text
unfolding scan_mantissa
scan_number c [] = scan_mantissa (c ∷ [])
scan_number c (d ∷ ds) =
    let digits = span is_hex ds in
    if c == b'0' && (d == b'x' || d == b'X')
    then (record { kind = int_token; text = c ∷ d ∷ digits.0 }, digits.1)
    else scan_mantissa (c ∷ d ∷ ds)

-- `scanString` and `scanEscape`, up to the quote, line feed or end of the text that ends it. After a
-- backslash a quote or backslash is taken as it is; digits of an escape are taken like any others.
unfoldable pub scan_string : Bool → Text → Text × Text
scan_string escape [] = ([], [])
scan_string escape (c ∷ cs) =
    let rest = scan_string (not escape && c == b'\\') cs in
    if c == 10 || (c == b'"' && not escape) then ([], c ∷ cs) else (c ∷ rest.0, rest.1)

-- The string token: the character that ends it belongs to it, whatever it is.
unfoldable pub string_of : Text → Text → Lexeme × Text
string_of w [] = (record { kind = string_token; text = b'"' ∷ w }, [])
string_of w (q ∷ u) = (record { kind = string_token; text = b'"' ∷ w ++ q ∷ [] }, u)

-- The case of a point: a float that begins with one, or the character.
unfoldable pub scan_point : Text → Lexeme × Text
unfolding span scan_exponent
scan_point [] = (record { kind = other b'.'; text = b'.' ∷ [] }, [])
scan_point (c ∷ cs) =
    let digits = span is_decimal (c ∷ cs) in
    let power = scan_exponent digits.1 in
    if is_decimal c
    then (record { kind = float_token; text = b'.' ∷ digits.0 ++ power.0 }, power.1)
    else (record { kind = other b'.'; text = b'.' ∷ [] }, c ∷ cs)

-- `unicode.IsLetter` and `unicode.IsDigit` of the characters that are not ASCII.
module _ (wide_letter wide_digit : ℕ → Bool) where
  -- `isIdentRune` of the first character, and of a later one.
  abbrev pub ident_start : ℕ → Bool
  ident_start c =
      c == b'_'
      || (if ltb c 128
          then (leb b'a' c && leb c b'z') || (leb b'A' c && leb c b'Z')
          else wide_letter c)

  abbrev pub ident_part : ℕ → Bool
  ident_part c = ident_start c || (if ltb c 128 then is_decimal c else wide_digit c)

  -- `scanIdentifier`
  unfoldable pub scan_identifier : ℕ → Text → Lexeme × Text
  unfolding span
  scan_identifier c cs =
      let rest = span ident_part cs in (record { kind = ident; text = c ∷ rest.0 }, rest.1)

  -- `Scan`
  unfoldable pub scan : Scan
  unfolding scan_identifier scan_number scan_string string_of scan_point
  scan [] = (record { kind = eof_token; text = [] }, [])
  scan (c ∷ cs) =
      let later = scan cs in
      let body = scan_string false cs in
      if c == b' ' || c == 9
      then later
      else (if ident_start c
          then scan_identifier c cs
          else (if is_decimal c
              then scan_number c cs
              else (if c == b'"'
                  then string_of body.0 body.1
                  else (if c == b'.'
                      then scan_point cs
                      else (record { kind = other c; text = c ∷ [] }, cs)))))
