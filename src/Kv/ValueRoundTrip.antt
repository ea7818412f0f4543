-- ===== src/Kv/ValueRoundTrip.antt =====
-- The values of a line read back.
use cypress.Base.{
  ℕ, ◌^◌, ◌<◌, ◌≡◌, refl, ap, ◌∙◌, Bool, true, false, Option, none, some, [], ◌∷◌, ◌++◌,
  append_assoc, All, arith, lt→ltb, inl, inr,
}
use cypress.Base.Text.{Text, codes}
use cypress.Base.Int.{ℤ, pos, negsuc, to_int64}
use cypress.Base.Decimal.{
  decimal, format_int, IsDigit, decimal-IsDigit, digits_value-decimal, all_digits-true,
}
use cypress.Base.Results.{ok, ◌>>=◌}
use cypress.Message.Types.{Interval, Attribute, Message}
use cypress.Message.Attributes.{
  Value, int_value, float_value, string_value, bytes_value, interval_value, bool_value,
  empty_attribute, add_value,
}
use cypress.Message.Attributes.Lookup.{fill_with}
use cypress.Message.Intervals.{parse_int64, parse_subsecond, subsecond}
use cypress.Message.Intervals.Fractions.{parse_subsecond-subsecond, subsecond-IsDigit}
use cypress.Kv.Print.{quoted_text, bool_text, interval_text, value_text}
use cypress.Kv.Scanning.{float_token, other, Lexeme, Scan}
use cypress.Kv.Parse.{lift, split_point, interval_of, read_value}
use cypress.Kv.Laws.{IsPlain, ends_word, ends_value, IsScanner}
use cypress.Kv.TagRoundTrip.{strquote-IsPlain, unquote_lem}

-- The values that the parser reads: no negative int, no float, and text that needs no quoting.
abbrev pub IsWritable : Value → Type 0
IsWritable (int_value (pos n)) = n < 2 ^ 63
IsWritable (int_value (negsuc n)) = ⊥
IsWritable (float_value f) = ⊥
IsWritable (string_value s) = IsPlain s
IsWritable (bytes_value s) = IsPlain s
IsWritable (interval_value i) =
    (i.seconds < 2 ^ 63) × (0 < i.nanoseconds) × (i.nanoseconds < 1_000_000_000)
IsWritable (bool_value b) = Unit

-- The type of a value is lost where its text has no mark of it.
abbrev pub read_back : Value → Value
read_back (int_value n) = int_value n
read_back (float_value f) = float_value f
read_back (string_value s) = string_value s
read_back (bytes_value s) = string_value s
read_back (interval_value i) = interval_value i
read_back (bool_value b) = string_value (bool_text b)

ends_value-word : (t : Text) → ends_value t ≡ true → ends_word t ≡ true
ends_value-word [] e = refl
ends_value-word (c ∷ cs) e = ground arith

split_point_lem : (ds es : Text) → All IsDigit ds → split_point (ds ++ b'.' ∷ es) ≡ some (ds, es)
unfolding split_point
split_point_lem [] es h = refl
split_point_lem (c ∷ ds) es (h, hs) = rw (split_point_lem ds es hs) (ground arith)

parse_int64-decimal : (n : ℕ) → n < 2 ^ 63 → parse_int64 (decimal n) ≡ n
unfolding parse_int64
parse_int64-decimal n h =
    ground (arith, all_digits-true (decimal n) (decimal-IsDigit n), digits_value-decimal n)

-- What a value is written as, in an attribute that holds nothing else.
abbrev pub WrittenAs : (ℕ → Text) → Value → Text → Type 0
WrittenAs format_float v text =
    (a : Attribute)
    → record a { key = 0; skey = none } ≡ empty_attribute
    → value_text format_float (fill_with v a) ≡ ok text

interval_text_lem :
    (i : Interval) (ds : Text)
    → i.seconds < 2 ^ 63
    → subsecond i.nanoseconds ≡ ok ds
    → interval_text i ≡ ok (b':' ∷ (decimal i.seconds ++ b'.' ∷ ds))
unfolding interval_text format_int to_int64
interval_text_lem i ds h e = rw (e, lt→ltb i.seconds (2 ^ 63) h) refl

blank_interval :
    (format_float : ℕ → Text) (i : Interval) (a : Attribute)
    → record a { key = 0; skey = none } ≡ empty_attribute
    → value_text format_float (fill_with (interval_value i) a) ≡ interval_text i
unfolding value_text fill_with
blank_interval format_float i a blank =
    let e1 : a.ival ≡ none = ap (λ b. b.ival) blank in
    let e2 : a.fval ≡ none = ap (λ b. b.fval) blank in
    let e3 : a.boolval ≡ none = ap (λ b. b.boolval) blank in
    let e4 : a.sval ≡ none = ap (λ b. b.sval) blank in
    let e5 : a.bval ≡ none = ap (λ b. b.bval) blank in rw (e1, e2, e3, e4, e5) refl

module _ (T : Type 0) (scan : Scan) (laws : IsScanner scan) (parse_int : Text → Option ℤ)
    (parse_float : Text → Option ℕ) where
  abbrev pub ReadsAs : Text → Value → Type 0
  ReadsAs text v =
      (fuel : ℕ) (m : Message T) (key t : Text)
      → ends_value t ≡ true
      → read_value scan parse_int parse_float fuel m key (scan (text ++ t)).0.kind
          (scan (text ++ t)).0.text (scan (text ++ t)).1
        ≡ (lift (add_value m key v) >>= λ n. ok (n, t))

  read_literal : (s : Text) → IsPlain s → ReadsAs (quoted_text s) (string_value s)
  unfolding quoted_text read_value add_value
  read_literal s h fuel m key t e =
      rw (strquote-IsPlain s h, append_assoc s (b'"' ∷ []) t, laws.literal s t h, unquote_lem s)

  read_bool : (b : Bool) → ReadsAs (bool_text b) (string_value (bool_text b))
  unfolding read_value add_value
  read_bool true fuel m key t e =
      rw (laws.word (codes "true") t (refl, (refl, (refl, (refl, tt)))) (ends_value-word t e)) refl
  read_bool false fuel m key t e =
      rw
        (laws.word (codes "false") t (refl, (refl, (refl, (refl, (refl, tt)))))
          (ends_value-word t e))
        refl

  read_int :
      (n : ℕ) → parse_int (decimal n) ≡ some (pos n) → ReadsAs (decimal n) (int_value (pos n))
  unfolding read_value add_value
  read_int n p fuel m key t e = rw (laws.whole n t e, read_value, p)

  interval_found :
      (fuel : ℕ) (m : Message T) (key text ds u : Text) (i : Interval)
      → i.seconds < 2 ^ 63
      → split_point text ≡ some (decimal i.seconds, ds)
      → parse_subsecond ds ≡ ok i.nanoseconds
      → interval_of scan parse_int parse_float fuel m key
          (record { kind = float_token; text = text })
          u
        ≡ (lift (add_value m key (interval_value i)) >>= λ n. ok (n, u))
  unfolding interval_of add_value
  interval_found fuel m key text ds u i h s p =
      rw (interval_of, s, p, parse_int64-decimal i.seconds h)

  colon_read :
      (fuel : ℕ) (m : Message T) (key w t : Text) (lex : Lexeme) (u : Text)
      → scan t ≡ (lex, u)
      → read_value scan parse_int parse_float fuel m key (other b':') w t
        ≡ interval_of scan parse_int parse_float fuel m key lex u
  unfolding read_value
  colon_read fuel m key w t lex u e =
      ap (λ r. interval_of scan parse_int parse_float fuel m key r.0 r.1) e

  read_interval_lem :
      (i : Interval) (ds : Text)
      → i.seconds < 2 ^ 63
      → parse_subsecond ds ≡ ok i.nanoseconds
      → All IsDigit ds
      → ReadsAs (b':' ∷ (decimal i.seconds ++ b'.' ∷ ds)) (interval_value i)
  read_interval_lem i ds h p d fuel m key t e =
      let left = decimal i.seconds ++ b'.' ∷ (ds ++ t) in
      rw (append_assoc (decimal i.seconds) (b'.' ∷ ds) t, laws.mark b':' left (inr (inl refl)))
        (colon_read fuel m key (b':' ∷ []) left
            (record { kind = float_token; text = decimal i.seconds ++ b'.' ∷ ds }) t
            (laws.fraction i.seconds ds t d e)
          ∙ interval_found fuel m key (decimal i.seconds ++ b'.' ∷ ds) ds t i h
              (split_point_lem (decimal i.seconds) ds (decimal-IsDigit i.seconds)) p)

-- Every writable value has a text that is read back.
module _ (T : Type 0) (format_float : ℕ → Text) (scan : Scan) (laws : IsScanner scan)
    (parse_int : Text → Option ℤ) (parse_float : Text → Option ℕ) where
  pub value_lem :
      ((n : ℕ) → n < 2 ^ 63 → parse_int (decimal n) ≡ some (pos n))
      → (v : Value) → IsWritable v
      → (text : Text) × WrittenAs format_float v text
        × ReadsAs T scan laws parse_int parse_float text (read_back v)
  unfolding value_text format_int fill_with
  value_lem ints (int_value (pos n)) h =
      (decimal n, (λ a blank. refl), read_int T scan laws parse_int parse_float n (ints n h))
  value_lem ints (int_value (negsuc n)) h = absurd h
  value_lem ints (float_value f) h = absurd h
  value_lem ints (string_value s) h =
      (quoted_text s, (λ a blank. ground arith), read_literal T scan laws parse_int parse_float s h)
  value_lem ints (bytes_value s) h =
      (quoted_text s, (λ a blank. ground arith), read_literal T scan laws parse_int parse_float s h)
  value_lem ints (interval_value i) (small, p, q) =
      let (ds, e, r, l) = parse_subsecond-subsecond i.nanoseconds p q in
      (
        b':' ∷ (decimal i.seconds ++ b'.' ∷ ds),
        (λ a blank. blank_interval format_float i a blank ∙ interval_text_lem i ds small e),
        read_interval_lem T scan laws parse_int parse_float i ds small r
            (subsecond-IsDigit i.nanoseconds p q ds e),
      )
  value_lem ints (bool_value b) h =
      (bool_text b, (λ a blank. ground arith), read_bool T scan laws parse_int parse_float b)
