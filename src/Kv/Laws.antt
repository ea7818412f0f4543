-- ===== src/Kv/Laws.antt =====
-- What the key/value format relies on in the scanner, with the modes and the white space that `NewKVParser` sets.
use cypress.Base.{ℕ, ◌≡◌, Bool, true, ◌&&◌, ◌||◌, [], ◌∷◌, ◌++◌, ◌==◌, leb, ltb, All, ◌⊎◌}
use cypress.Base.Text.{Text}
use cypress.Base.Decimal.{decimal, IsDigit}
use cypress.Kv.Scanning.{ident, int_token, float_token, string_token, other, Scan}

-- An ASCII letter or the underscore.
abbrev pub is_letter : ℕ → Bool
is_letter c = (leb b'a' c && leb c b'z') || ((leb b'A' c && leb c b'Z') || c == b'_')

abbrev pub is_word_char : ℕ → Bool
is_word_char c = is_letter c || (leb 48 c && ltb c 58)

abbrev pub IsWord : Text → Type 0
IsWord [] = ⊥
IsWord (c ∷ cs) = (is_letter c ≡ true) × All (λ d. is_word_char d ≡ true) cs

-- No word goes on here, in ASCII.
abbrev pub ends_word : Text → Bool
ends_word [] = true
ends_word (c ∷ cs) = (c == b' ') || ((c == b'=') || ((c == b'!') || ((c == b']') || (c == 10))))

-- A text that stands between quotes as it is.
abbrev pub IsPlain : Text → Type 0
IsPlain = All (λ c. ¬ (c ≡ b'"') × ¬ (c ≡ b'\\') × ¬ (c ≡ 10))

abbrev pub IsMark : ℕ → Type 0
IsMark c = (c ≡ b'=') ⊎ ((c ≡ b':') ⊎ ((c ≡ b'!') ⊎ (c ≡ b']')))

-- The end of an attribute.
abbrev pub ends_value : Text → Bool
ends_value [] = true
ends_value (c ∷ cs) = (c == b' ') || (c == 10)

pub record IsScanner (scan : Scan) : Type 0 where
  pub blank : (t : Text) → scan (b' ' ∷ t) ≡ scan t
  pub word :
      (w t : Text)
      → IsWord w
      → ends_word t ≡ true
      → scan (w ++ t) ≡ (record { kind = ident; text = w }, t)
  pub literal :
      (w t : Text)
      → IsPlain w
      → scan (b'"' ∷ w ++ b'"' ∷ t)
        ≡ (record { kind = string_token; text = b'"' ∷ w ++ b'"' ∷ [] }, t)
  pub mark :
      (c : ℕ) (t : Text) → IsMark c → scan (c ∷ t) ≡ (record { kind = other c; text = c ∷ [] }, t)
  pub whole :
      (n : ℕ) (t : Text)
      → ends_value t ≡ true
      → scan (decimal n ++ t) ≡ (record { kind = int_token; text = decimal n }, t)
  pub fraction :
      (n : ℕ) (ds t : Text)
      → All IsDigit ds
      → ends_value t ≡ true
      → scan (decimal n ++ (b'.' ∷ ds ++ t))
        ≡ (record { kind = float_token; text = decimal n ++ b'.' ∷ ds }, t)
