-- ===== src/Message/Intervals.antt =====
-- log.go: time intervals as seconds and nanoseconds, and their text in the key/value format, with
-- the part of kv.go that reads it back.
pub mod Durations
pub mod Fractions
use cypress.Base.{
  ℕ, zero, suc, ◌+◌, ◌-◌, ◌*◌, ◌/◌, ◌%◌, ◌^◌, List, [], ◌∷◌, ◌++◌, length, reverse, ltb, leb, ◌==◌,
  if◌then◌else◌,
}
use cypress.Base.Text.{Text}
use cypress.Base.Int.{ℤ, to_int64, to_uint64}
use cypress.Base.Decimal.{decimal, digits_value, all_digits}
use cypress.Base.Results.{Result, ok, err, Panic, index_out_of_range, ◌>>=◌}
use cypress.Message.Types.{Interval}
use cypress.Base.Results.{index}

-- `durationToInterval`; a duration is an int64 of nanoseconds.
pub duration_to_interval : ℤ → Interval
unfolding to_uint64
duration_to_interval dur =
    let total_nsec = to_uint64 dur in
    record {
      seconds = total_nsec / 1_000_000_000;
      nanoseconds = total_nsec % 1_000_000_000 % 2 ^ 32;
    }

-- `Interval.Duration`: a product and a sum of int64, which wrap.
pub duration : Interval → ℤ
unfolding to_int64
duration i = to_int64 ((i.seconds * 1_000_000_000 % 2 ^ 64 + i.nanoseconds) % 2 ^ 64)

-- `for len(str) < 9 { str = "0" + str }`, with a round for each byte that may lack.
unfoldable pub pad_zeros : ℕ → Text → Text
pad_zeros zero str = str
pad_zeros (suc rounds) str = pad_zeros rounds (if ltb (length str) 9 then 48 ∷ str else str)

-- The loop that cuts zeros off the end, on the reversed text. It reads the last byte of a text
-- that may be empty.
unfoldable pub strip_zeros : Text → Result Panic Text
strip_zeros [] = err index_out_of_range
strip_zeros (c ∷ cs) = if c == 48 then strip_zeros cs else ok (c ∷ cs)

-- `subsecond`; its last test, for the empty text, is never reached with one.
unfoldable pub subsecond : ℕ → Result Panic Text
unfolding pad_zeros strip_zeros
subsecond s = strip_zeros (reverse (pad_zeros 9 (decimal s))) >>= λ str. ok (reverse str)

abbrev pub c_to_nano : List ℕ
c_to_nano = 100000000 ∷ 10000000 ∷ 1000000 ∷ 100000 ∷ 10000 ∷ 1000 ∷ 100 ∷ 10 ∷ 1 ∷ []

-- `strconv.ParseInt(s, 10, 32)` of a text with no sign, its error ignored: 0 for what is no number,
-- and the greatest int32 for a number that is out of range.
pub parse_int32 : Text → ℕ
unfolding digits_value
parse_int32 s =
    if all_digits s
    then (if ltb (digits_value s) (2 ^ 31) then digits_value s else 2 ^ 31 - 1)
    else 0

-- `uint64` of `strconv.ParseInt(s, 10, 64)`, alike.
unfoldable pub parse_int64 : Text → ℕ
parse_int64 s =
    if all_digits s
    then (if ltb (digits_value s) (2 ^ 63) then digits_value s else 2 ^ 63 - 1)
    else 0

-- kv.go: the nanoseconds from the digits behind the point, `tssec`. `cToNano` is read at
-- `len(tssec)-1`, also for the empty text.
unfoldable pub parse_subsecond : Text → Result Panic ℕ
unfolding parse_int32
parse_subsecond tssec =
    let subsec = parse_int32 tssec in
    if leb (length tssec) 9
    then (if length tssec == 0
        then err index_out_of_range
        else (index c_to_nano (length tssec - 1) >>= λ scale. ok (subsec * scale % 2 ^ 32)))
    else ok (subsec % 2 ^ 32)
