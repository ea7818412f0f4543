-- ===== src/Kv/Scanning.antt =====
-- What kv.go uses of the package scanner, a copy of Go's text/scanner.
use cypress.Base.{ℕ, ◌==◌, Bool, true, false}
use cypress.Base.Text.{Text}

-- What `Scan` returns: a class of tokens, or the character itself.
pub data Kind : Type 0 where
  eof_token ident int_token float_token char_token string_token raw_string : Kind
  other : ℕ → Kind

-- A token with its `TokenText`.
pub record Lexeme : Type 0 where
  pub kind : Kind
  pub text : Text

-- `Scan`, on the characters that are left and to those behind the token.
abbrev pub Scan : Type 0
Scan = Text → Lexeme × Text

abbrev pub is_ident : Kind → Bool
is_ident ident = true
is_ident eof_token = false
is_ident int_token = false
is_ident float_token = false
is_ident char_token = false
is_ident string_token = false
is_ident raw_string = false
is_ident (other c) = false

abbrev pub is_string : Kind → Bool
is_string string_token = true
is_string raw_string = true
is_string eof_token = false
is_string ident = false
is_string int_token = false
is_string float_token = false
is_string char_token = false
is_string (other c) = false

abbrev pub is_float : Kind → Bool
is_float float_token = true
is_float eof_token = false
is_float ident = false
is_float int_token = false
is_float char_token = false
is_float string_token = false
is_float raw_string = false
is_float (other c) = false

abbrev pub is_mark : ℕ → Kind → Bool
is_mark d (other c) = c == d
is_mark d eof_token = false
is_mark d ident = false
is_mark d int_token = false
is_mark d float_token = false
is_mark d char_token = false
is_mark d string_token = false
is_mark d raw_string = false

abbrev pub is_eof : Kind → Bool
is_eof eof_token = true
is_eof ident = false
is_eof int_token = false
is_eof float_token = false
is_eof char_token = false
is_eof string_token = false
is_eof raw_string = false
is_eof (other c) = false
