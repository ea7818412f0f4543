-- ===== src/Syslog/Reader.antt =====
-- What syslog.go uses of a `bufio.Reader` and of packages strconv and strings. The bytes of the
-- connection are all there, except where the code asks for as many as are ready.
use cypress.Base.{
  ℕ, zero, suc, ◌+◌, ◌-◌, ◌^◌, Bool, true, false, map, ◌||◌, ◌&&◌, Option, none, some, List, [],
  ◌∷◌, ◌++◌, reverse, length, take, drop, replicate, ltb, leb, ◌==◌, if◌then◌else◌,
}
use cypress.Base.Text.{Text, codes}
use cypress.Base.Int.{ℤ, pos, negsuc}
use cypress.Base.Decimal.{digits_value, all_digits}
use cypress.Base.Results.{Result, ok, err, Panic, slice_bounds}

-- An error of the connection, `ErrInvalidFormat`, an error of `strconv.Atoi`, and a panic.
pub data SyslogError : Type 0 where
  eof invalid_format bad_number : SyslogError
  panicked : Panic → SyslogError

-- The bytes to come, and the number of those that were read. The code keeps `total`, from which it
-- takes off the bytes of each read in a statement of its own behind the read; here the operations that
-- read count, and `total` is its initial value less `used`.
pub record Input : Type 0 where
  pub r : List ℕ
  pub used : ℕ

abbrev pub Parser : Type 0 → Type 0
Parser A = Input → Result SyslogError (A × Input)

infixl 5 ◌>>=◌ ◌>>◌
abbrev pub ◌>>=◌ : {A B : Type 0} → Parser A → (A → Parser B) → Parser B
◌>>=◌ m f s = elim (m s) [ err e ↦ err e | ok (a, t) ↦ f a t ]

abbrev pub ◌>>◌ : {B : Type 0} → Parser (Unit {0}) → Parser B → Parser B
m >> k = m >>= λ _. k

abbrev pub pure : {A : Type 0} → A → Parser A
pure a s = ok (a, s)

abbrev pub fail : {A : Type 0} → SyslogError → Parser A
fail e s = err e

-- What does not read.
abbrev pub lift : {A : Type 0} → Result Panic A → Parser A
lift (ok a) s = ok (a, s)
lift (err e) s = err (panicked e)

-- `ReadByte`
unfoldable pub read_byte : Parser ℕ
read_byte s = elim s.r [ [] ↦ err eof | c ∷ cs ↦ ok (c, record { r = cs; used = s.used + 1 }) ]

-- Up to the first `d` and with it.
unfoldable pub split_after : ℕ → List ℕ → Option (Text × List ℕ)
split_after d [] = none
split_after d (c ∷ cs) =
    if c == d
    then some (c ∷ [], cs)
    else elim (split_after d cs) [ none ↦ none | some (t, rest) ↦ some (c ∷ t, rest) ]

-- `ReadString`
unfoldable pub read_string : ℕ → Parser Text
unfolding split_after
read_string d s = elim (split_after d s.r) [
  | none ↦ err eof
  | some (t, rest) ↦ ok (t, record { r = rest; used = s.used + length t })
]

-- `Peek`
unfoldable pub peek : ℕ → Parser Text
peek n s = if ltb (length s.r) n then err eof else ok (take n s.r, s)

-- A `Read` of bytes that a `Peek` has seen.
unfoldable pub skip : ℕ → Parser (Unit {0})
skip n s = ok (tt, record { r = drop n s.r; used = s.used + length (take n s.r) })

-- `t[:len(t)-1]`
abbrev pub but_last : Text → Text
but_last [] = []
but_last (c ∷ []) = []
but_last (c ∷ d ∷ cs) = c ∷ but_last (d ∷ cs)

-- `strings.IndexByte`
unfoldable pub index_byte : ℕ → Text → Option ℕ
index_byte d [] = none
index_byte d (c ∷ cs) =
    if c == d then some 0 else elim (index_byte d cs) [ none ↦ none | some i ↦ some (suc i) ]

-- `strconv.Atoi` of a text of digits that an int holds.
abbrev pub natural : Text → Option ℕ
natural [] = none
natural (c ∷ cs) = if all_digits (c ∷ cs) then some (digits_value (c ∷ cs)) else none

-- `strconv.Atoi`: a sign may stand in front.
unfoldable pub atoi : Text → Option ℤ
atoi [] = none
atoi (c ∷ cs) =
    if c == b'-'
    then elim (natural cs) [
      | none ↦ none
      | some n ↦
          if n == 0 then some (pos 0) else (if leb n (2 ^ 63) then some (negsuc (n - 1)) else none)
    ]
    else elim (if c == b'+' then natural cs else natural (c ∷ cs)) [
      | none ↦ none
      | some n ↦ if ltb n (2 ^ 63) then some (pos n) else none
    ]

-- The white space of `unicode.IsSpace`, each character as its bytes in UTF-8.
abbrev white_space : List Text
white_space =
    (9 ∷ [])
    ∷ (10 ∷ [])
    ∷ (11 ∷ [])
    ∷ (12 ∷ [])
    ∷ (13 ∷ [])
    ∷ (32 ∷ [])
    ∷ (0xc2 ∷ 0x85 ∷ [])
    ∷ (0xc2 ∷ 0xa0 ∷ [])
    ∷ (0xe1 ∷ 0x9a ∷ 0x80 ∷ [])
    ∷ (0xe2 ∷ 0x80 ∷ 0x80 ∷ [])
    ∷ (0xe2 ∷ 0x80 ∷ 0x81 ∷ [])
    ∷ (0xe2 ∷ 0x80 ∷ 0x82 ∷ [])
    ∷ (0xe2 ∷ 0x80 ∷ 0x83 ∷ [])
    ∷ (0xe2 ∷ 0x80 ∷ 0x84 ∷ [])
    ∷ (0xe2 ∷ 0x80 ∷ 0x85 ∷ [])
    ∷ (0xe2 ∷ 0x80 ∷ 0x86 ∷ [])
    ∷ (0xe2 ∷ 0x80 ∷ 0x87 ∷ [])
    ∷ (0xe2 ∷ 0x80 ∷ 0x88 ∷ [])
    ∷ (0xe2 ∷ 0x80 ∷ 0x89 ∷ [])
    ∷ (0xe2 ∷ 0x80 ∷ 0x8a ∷ [])
    ∷ (0xe2 ∷ 0x80 ∷ 0xa8 ∷ [])
    ∷ (0xe2 ∷ 0x80 ∷ 0xa9 ∷ [])
    ∷ (0xe2 ∷ 0x80 ∷ 0xaf ∷ [])
    ∷ (0xe2 ∷ 0x81 ∷ 0x9f ∷ [])
    ∷ (0xe3 ∷ 0x80 ∷ 0x80 ∷ [])
    ∷ []

-- Whether a text begins with these bytes.
unfoldable pub has_prefix : Text → Text → Bool
has_prefix t [] = true
has_prefix [] (p ∷ ps) = false
has_prefix (c ∷ cs) (p ∷ ps) = c == p && has_prefix cs ps

-- How many bytes the first of these texts has that a text begins with, or 0.
unfoldable pub prefix_width : List Text → Text → ℕ
unfolding has_prefix
prefix_width [] t = 0
prefix_width (p ∷ ps) t = if has_prefix t p then length p else prefix_width ps t

-- What is left when all these texts are cut off in front. The first `skipped` bytes belong to one.
unfoldable pub trim_left : List Text → ℕ → Text → Text
unfolding prefix_width
trim_left cut skipped [] = []
trim_left cut (suc skipped) (c ∷ cs) = trim_left cut skipped cs
trim_left cut zero (c ∷ cs) =
    let n = prefix_width cut (c ∷ cs) in
    let rest = trim_left cut (n - 1) cs in if n == 0 then c ∷ cs else rest

-- `strings.TrimSpace`. No byte sequence that is not a whole character ends in one of these, so that the
-- end is cut as the front is.
unfoldable pub trim_space : Text → Text
unfolding trim_left
trim_space t =
    reverse (trim_left (map (λ p. reverse p) white_space) 0 (reverse (trim_left white_space 0 t)))

-- `t[lo:hi]`
unfoldable pub slice : Text → ℕ → ℕ → Result Panic Text
slice t lo hi =
    if ltb (length t) hi || ltb hi lo then err slice_bounds else ok (take (hi - lo) (drop lo t))

-- The formats of `tsFmts`: "Jan 02 15:04:05", "Jan  2 15:04:05", `time.RFC3339` and `time.Stamp`.
abbrev pub ts_fmts : List Text
ts_fmts =
    codes "Jan 02 15:04:05"
    ∷ codes "Jan  2 15:04:05"
    ∷ codes "2006-01-02T15:04:05Z07:00"
    ∷ codes "Jan _2 15:04:05"
    ∷ []

-- What is looked at for one format: as many bytes as it has, up to a space if it has none itself.
unfoldable pub stamp_text : Text → Text → Text
unfolding index_byte
stamp_text fmt sub = elim (index_byte 32 fmt) [
  | some _ ↦ sub
  | none ↦ elim (index_byte 32 sub) [ none ↦ sub | some i ↦ take i sub ]
]

module _ {T : Type 0} (parse_time : Text → Text → Option T) where
  -- The loop over the formats. `time.Parse`, with the label that `tai64n.FromTime` makes of a time, is
  -- a parameter.
  unfoldable pub read_stamp : List Text → Parser T
  unfolding peek skip stamp_text
  read_stamp [] s = err invalid_format
  read_stamp (fmt ∷ fmts) s =
      let more = read_stamp fmts s in
      elim (peek (length fmt) s) [
        | err e ↦ err e
        | ok (sub, t) ↦ elim (parse_time fmt (stamp_text fmt sub)) [
          | none ↦ more
          | some ts ↦ (skip (length (stamp_text fmt sub)) >>= λ _. pure ts) t
        ]
      ]

-- `ReadByte` of a space.
unfoldable pub read_space : Parser (Unit {0})
unfolding read_byte
read_space = read_byte >>= λ c. if c == 32 then pure tt else fail invalid_format

-- The text up to a byte, which is read and cut off.
unfoldable pub read_field : ℕ → Parser Text
unfolding read_string
read_field d = read_string d >>= λ t. pure (but_last t)

-- The message. With a `total` that is not used up one `Read` is made into a buffer of that size, of
-- which `ready` bytes can be filled at most: the others stay 0. Otherwise it is a line.
unfoldable pub read_message : ℕ → ℕ → Parser Text
unfolding read_string
read_message ready total s =
    let left = total - s.used in
    let n = if ltb ready left then ready else left in
    let got = take n s.r in
    if ltb s.used total
    then elim s.r [
      | [] ↦ err eof
      | _ ∷ _ ↦ ok (
        got ++ replicate (left - length got) 0,
        record { r = drop n s.r; used = s.used + length got },
      )
    ]
    else read_string 10 s
