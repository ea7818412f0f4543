-- ===== src/Varint.antt =====
-- varint.go: unsigned integers of 64 bits on a byte stream, seven bits a byte, lowest first.
pub mod Bounds
pub mod RoundTrip
pub mod Tests
use Prim.Native.Nat.{bit_and, bit_or}
use mathlib.Core.Option
use cypress.Base.{
  ℕ, zero, suc, ◌+◌, ◌*◌, ◌/◌, ◌%◌, ◌^◌, Bool, ◌&&◌, ◌||◌, List, [], ◌∷◌, Option, none, some, ltb,
  leb, ◌==◌, if◌then◌else◌,
}
use cypress.Base.Results.{Result, ok, err}

-- `eof` is the reader's error at the end of the stream, `overflow` is ErrOverflow.
pub data VarintError : Type 0 where
  eof overflow : VarintError

-- `binary.PutUvarint` into a buffer with `room` bytes left; `none` is the index out of range.
unfoldable pub put_uvarint : ℕ → ℕ → Option (List ℕ)
put_uvarint zero x = none
put_uvarint (suc room) x =
    let more = put_uvarint room (x / 128) in
    if leb 0x80 x then Option.map (λ bs. bit_or (x % 256) 0x80 ∷ bs) more else some ((x % 256) ∷ [])

-- `WriteUvarint`: the bytes that reach the writer, from a buffer of ten.
unfoldable pub write_uvarint : ℕ → Option (List ℕ)
write_uvarint x = put_uvarint 10 x

-- `uint64(v) << s`
abbrev pub shift_left : ℕ → ℕ → ℕ
shift_left v s = v * 2 ^ s % 2 ^ 64

-- The loop of `ReadUvarint`; the list is what the reader still holds.
pub read_uvarint_loop : List ℕ → ℕ → ℕ → ℕ → Result VarintError (ℕ × List ℕ)
read_uvarint_loop [] i x s = err eof
read_uvarint_loop (b ∷ rest) i x s =
    let more = read_uvarint_loop rest (i + 1) (bit_or x (shift_left (bit_and b 0x7f) s)) (s + 7) in
    if ltb b 0x80
    then (if ltb 9 i || i == 9 && ltb 1 b
        then err overflow
        else ok (bit_or x (shift_left b s), rest))
    else more

pub read_uvarint : List ℕ → Result VarintError (ℕ × List ℕ)
read_uvarint src = read_uvarint_loop src 0 0 0
