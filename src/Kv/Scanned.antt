-- ===== src/Kv/Scanned.antt =====
-- What `Scan` of scanner/scanner.go makes of the texts that the key/value format is printed as.
use cypress.Base.{
  ℕ, ◌≡◌, refl, ap, ◌∙◌, Bool, true, false, not, ◌&&◌, ◌||◌, [], ◌∷◌, ◌++◌, ◌==◌, All, inl, inr,
  arith, subst, append-nil,
}
use cypress.Base.Text.{Text}
use cypress.Base.Decimal.{decimal, IsDigit, decimal-IsDigit, decimal-cons}
use cypress.Kv.Scanning.{ident, int_token, float_token, string_token, other}
use cypress.Kv.Laws.{
  is_letter, is_word_char, IsWord, ends_word, IsPlain, IsMark, ends_value, IsScanner,
}
use cypress.Kv.Scanner.{
  span, is_decimal, scan_fraction, scan_exponent, float_or_int, scan_mantissa, scan_number,
  scan_string, string_of, ident_start, ident_part, scan_identifier, scan,
}

abbrev stops : (ℕ → Bool) → Text → Bool
stops p [] = true
stops p (c ∷ cs) = not (p c)

span_lem :
    (p : ℕ → Bool) (w t : Text)
    → All (λ c. p c ≡ true) w
    → stops p t ≡ true
    → span p (w ++ t) ≡ (w, t)
unfolding span
span_lem p [] [] h s = refl
span_lem p [] (c ∷ t) h s = ground arith
span_lem p (c ∷ w) t (h, hs) s = rw (span_lem p w t hs s, h) refl

digits_lem : (ds : Text) → All IsDigit ds → All (λ c. is_decimal c ≡ true) ds
digits_lem [] h = tt
digits_lem (c ∷ ds) (h, hs) = (ground arith, digits_lem ds hs)

digit_stops : (t : Text) → ends_value t ≡ true → stops is_decimal t ≡ true
digit_stops [] e = refl
digit_stops (c ∷ cs) e = ground arith

-- At its end a number is an int.
int_lem :
    (ds t : Text)
    → ends_value t ≡ true
    → float_or_int ds t ≡ (record { kind = int_token; text = ds }, t)
unfolding float_or_int
int_lem ds [] e = refl
int_lem ds (c ∷ t) e =
    let whole : (c == b'.' || (c == b'e' || c == b'E')) ≡ false = ground (arith, e) in rw whole refl

no_exponent : (t : Text) → ends_value t ≡ true → scan_exponent t ≡ ([], t)
unfolding scan_exponent
no_exponent [] e = refl
no_exponent (c ∷ t) e =
    let none_here : (c == b'e' || c == b'E') ≡ false = ground (arith, e) in rw none_here refl

float_lem :
    (ds es t : Text)
    → All IsDigit es
    → ends_value t ≡ true
    → float_or_int ds (b'.' ∷ es ++ t) ≡ (record { kind = float_token; text = ds ++ b'.' ∷ es }, t)
unfolding float_or_int scan_fraction
float_lem ds es t h e =
    let digits = span_lem is_decimal es t (digits_lem es h) (digit_stops t e) in
    rw (digits, no_exponent t e) (simp append-nil)

-- A character that may follow a zero in the texts that are printed.
abbrev not_x : Text → Bool
not_x [] = true
not_x (c ∷ cs) = not (c == b'x' || c == b'X')

value_not_x : (t : Text) → ends_value t ≡ true → not_x t ≡ true
value_not_x [] e = refl
value_not_x (c ∷ cs) e = ground arith

plain_number : (c : ℕ) (t : Text) → not_x t ≡ true → scan_number c t ≡ scan_mantissa (c ∷ t)
unfolding scan_number
plain_number c [] e = refl
plain_number c (d ∷ ds) e =
    let no_hex : (c == b'0' && (d == b'x' || d == b'X')) ≡ false = ground (arith, e) in
    rw no_hex refl

digits_not_x : (ds t : Text) → All IsDigit ds → not_x t ≡ true → not_x (ds ++ t) ≡ true
digits_not_x [] t h e = e
digits_not_x (c ∷ ds) t (h, hs) e = ground arith

mantissa_lem :
    (ds t : Text)
    → All IsDigit ds
    → stops is_decimal t ≡ true
    → scan_mantissa (ds ++ t) ≡ float_or_int ds t
unfolding scan_mantissa
mantissa_lem ds t h e =
    ap (λ r. float_or_int r.0 r.1) (span_lem is_decimal ds t (digits_lem ds h) e)

plain_string : (w t : Text) → IsPlain w → scan_string false (w ++ b'"' ∷ t) ≡ (w, b'"' ∷ t)
unfolding scan_string
plain_string [] t h = refl
plain_string (c ∷ w) t ((q, b, n), hs) =
    let no_escape : (c == b'\\') ≡ false = ground (arith, b) in
    let goes_on : (c == 10 || (c == b'"' && not false)) ≡ false = ground (arith, q, n) in
    rw (no_escape, plain_string w t hs, goes_on) refl

module _ (wide_letter wide_digit : ℕ → Bool) where
  letter_start : (c : ℕ) → is_letter c ≡ true → ident_start wide_letter wide_digit c ≡ true
  letter_start c h = ground arith

  char_part : (c : ℕ) → is_word_char c ≡ true → ident_part wide_letter wide_digit c ≡ true
  char_part c h = ground arith

  chars_part :
      (w : Text)
      → All (λ c. is_word_char c ≡ true) w
      → All (λ c. ident_part wide_letter wide_digit c ≡ true) w
  chars_part [] h = tt
  chars_part (c ∷ w) (h, hs) = (char_part c h, chars_part w hs)

  word_stops : (t : Text) → ends_word t ≡ true → stops (ident_part wide_letter wide_digit) t ≡ true
  word_stops [] e = refl
  word_stops (c ∷ cs) e = ground arith

  scan-word :
      (w t : Text)
      → IsWord w
      → ends_word t ≡ true
      → scan wide_letter wide_digit (w ++ t) ≡ (record { kind = ident; text = w }, t)
  unfolding scan scan_identifier
  scan-word [] t h e = absurd h
  scan-word (c ∷ cs) t (h, hs) e =
      let blank : (c == b' ' || c == 9) ≡ false = ground (arith, h) in
      rw
        (
          blank,
          letter_start c h,
          span_lem (ident_part wide_letter wide_digit) cs t (chars_part cs hs) (word_stops t e),
        )
        refl

  at_digit :
      (c : ℕ) (cs : Text) → IsDigit c → scan wide_letter wide_digit (c ∷ cs) ≡ scan_number c cs
  unfolding scan
  at_digit c cs h =
      let blank : (c == b' ' || c == 9) ≡ false = ground (arith, h) in
      let letter : ident_start wide_letter wide_digit c ≡ false = ground (arith, h) in
      let digit : is_decimal c ≡ true = ground (arith, h) in rw (blank, letter, digit) refl

  at_decimal :
      (n : ℕ) (t : Text)
      → not_x t ≡ true
      → scan wide_letter wide_digit (decimal n ++ t) ≡ scan_mantissa (decimal n ++ t)
  at_decimal n t x =
      let (c, cs, e) = decimal-cons n in
      let digits : All IsDigit (c ∷ cs) = subst (All IsDigit) e (decimal-IsDigit n) in
      rw e (at_digit c (cs ++ t) digits.0 ∙ plain_number c (cs ++ t) (digits_not_x cs t digits.1 x))

  scan-mark :
      (c : ℕ) (t : Text)
      → IsMark c
      → scan wide_letter wide_digit (c ∷ t) ≡ (record { kind = other c; text = c ∷ [] }, t)
  unfolding scan
  scan-mark c t (inl e) = rw e refl
  scan-mark c t (inr (inl e)) = rw e refl
  scan-mark c t (inr (inr (inl e))) = rw e refl
  scan-mark c t (inr (inr (inr e))) = rw e refl

  scan-literal :
      (w t : Text)
      → IsPlain w
      → scan wide_letter wide_digit (b'"' ∷ w ++ b'"' ∷ t)
        ≡ (record { kind = string_token; text = b'"' ∷ w ++ b'"' ∷ [] }, t)
  unfolding scan string_of
  scan-literal w t h = ap (λ r. string_of r.0 r.1) (plain_string w t h)

  pub scan-IsScanner : IsScanner (scan wide_letter wide_digit)
  unfolding scan
  scan-IsScanner = record {
    blank = λ t. refl;
    word = scan-word;
    literal = scan-literal;
    mark = scan-mark;
    whole = λ n t e.
        at_decimal n t (value_not_x t e)
        ∙ mantissa_lem (decimal n) t (decimal-IsDigit n) (digit_stops t e)
        ∙ int_lem (decimal n) t e;
    fraction = λ n ds t h e.
        at_decimal n (b'.' ∷ ds ++ t) refl
        ∙ mantissa_lem (decimal n) (b'.' ∷ ds ++ t) (decimal-IsDigit n) refl
        ∙ float_lem (decimal n) ds t h e;
  }
