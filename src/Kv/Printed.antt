-- ===== src/Kv/Printed.antt =====
-- Lines of the key/value format through `Scan` of scanner/scanner.go.
use cypress.Base.{ℕ, ◌^◌, ◌<◌, ◌≡◌, ◌≢◌, Bool, true, Option, some, List, [], ◌++◌}
use cypress.Base.Text.{Text}
use cypress.Base.Int.{ℤ, pos}
use cypress.Base.Decimal.{decimal}
use cypress.Base.Results.{ok}
use cypress.Message.Types.{Tag, Message}
use cypress.Message.Attributes.{Value, add_all}
use cypress.Kv.Print.{kv_string}
use cypress.Kv.Parse.{at_end}
use cypress.Kv.Generate.{generate}
use cypress.Kv.TagRoundTrip.{ArePrintable}
use cypress.Kv.PairRoundTrip.{all_back, AreWritable}
use cypress.Kv.BodyRoundTrip.{IsLabel, IsSession, bare_message_of}
use cypress.Kv.RoundTrip.{kv_round_trip}
use cypress.Kv.Scanner.{scan}
use cypress.Kv.Scanned.{scan-IsScanner}

module _ (T : Type 0) (wide_letter wide_digit : ℕ → Bool) (parse_int : Text → Option ℤ)
    (parse_float : Text → Option ℕ) (parse_label : Text → Option T) (format_float : ℕ → Text)
    (label : T → Text) (labels : IsLabel T label parse_label) where
  -- With labels of time stamps that have no space and are read back, and decimal ints below 2^63 that
  -- are read back; all texts are valid UTF-8, and stand as their characters. Take a message of
  -- version 1 of one of the five types, with at least one tag or attribute. Its session is missing, or
  -- has no space and is not empty; its tags have words of ASCII for names and plain values, those
  -- without a value last; its attributes were added under words of ASCII, with values that are no
  -- negative ints, no floats, plain texts, and intervals with a part of a second. Its line, at the end
  -- of the input or in front of a newline, is parsed through `Scan` of the package scanner into the
  -- message with the same attributes, but that bytes and bools come back as text.
  pub scanned_round_trip :
      ((n : ℕ) → n < 2 ^ 63 → parse_int (decimal n) ≡ some (pos n))
      → (bare : Bool) (now stamp : T) (t : ℕ) (session : Option Text) (tags : List Tag)
        (kvs : List (Text × Value)) (r : Text)
      → t < 5
      → IsSession session
      → ArePrintable tags
      → AreWritable kvs
      → (tags ≡ [] → kvs ≢ [])
      → at_end r ≡ true
      → (m n : Message T) × (line : Text) × (add_all (bare_message_of stamp t session tags) kvs
          ≡ ok m)
        × (kv_string format_float label m ≡ ok line)
        × (add_all (bare_message_of stamp t session tags) (all_back kvs) ≡ ok n)
        × (generate
              (scan wide_letter wide_digit)
              parse_int
              parse_float
              parse_label
              bare
              now
              (line ++ r)
            ≡ ok (n, r))
  scanned_round_trip ints bare now stamp t session tags kvs r small s h w some_text e =
      kv_round_trip T (scan wide_letter wide_digit) parse_int parse_float parse_label format_float
        label (scan-IsScanner wide_letter wide_digit) labels ints bare now stamp t session tags kvs
        r small s h w some_text e
