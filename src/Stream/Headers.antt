-- ===== src/Stream/Headers.antt =====
-- header.go, probe.go and peek.go: the header of a stream.
use cypress.Base.{
  ℕ, ◌-◌, Bool, true, Option, none, some, List, [], ◌∷◌, take, drop, ltb, ◌==◌, if◌then◌else◌,
}
use cypress.Base.Results.{Result, ok, err, Panic, index_out_of_range}
use cypress.Stream.Frames.{Payload, DecodeError, eof, read_sized}
use cypress.Stream.Compression.{Compression, no_compression, snappy, zlib, other_compression}

-- The struct of log.pb.go; both fields are pointers to an int32.
pub record StreamHeader : Type 0 where
  pub compression : Option ℕ
  pub mode : Option ℕ

-- `GetCompression` and the constants that it gives.
-- The value of a getter: a pointer that is nil reads as 0.
abbrev pub or_zero : Option ℕ → ℕ
or_zero none = 0
or_zero (some n) = n

unfoldable pub get_compression : StreamHeader → Compression
get_compression h =
    let n = or_zero h.compression in
    if n == 0
    then no_compression
    else (if n == 1 then snappy else (if n == 2 then zlib else other_compression n))

-- `GetMode() == StreamHeader_RELIABLE`
unfoldable pub is_reliable : StreamHeader → Bool
is_reliable h = or_zero h.mode == 1

-- `new(StreamHeader)`
abbrev pub empty_header : StreamHeader
empty_header = record { compression = none; mode = none }

-- `Probe.Probe`: the header, and the rest of the stream. A first byte that is no `-` is put in front of
-- the stream again by a `bytePeekReader`.
unfoldable pub probe : Payload StreamHeader → List ℕ → Result DecodeError (StreamHeader × List ℕ)
unfolding read_sized
probe p [] = err eof
probe p (b ∷ rest) =
    if b == b'-' then read_sized p empty_header rest else ok (empty_header, b ∷ rest)

-- `bytePeekReader`: the byte in front of the stream, and whether it was read.
pub record BytePeekReader : Type 0 where
  pub b : ℕ
  pub used : Bool
  pub r : List ℕ

abbrev pub least : ℕ → ℕ → ℕ
least m n = if ltb m n then m else n

-- `Read` into a buffer of `room` bytes, when the stream has `ready` bytes to give. The first read
-- stores the byte before it looks at the room.
unfoldable pub peek_read : ℕ → ℕ → BytePeekReader → Result Panic (List ℕ × BytePeekReader)
peek_read ready room p =
    let first = least ready (room - 1) in
    let later = least ready room in
    if p.used
    then ok (take later p.r, record p { r = drop later p.r })
    else (if room == 0
        then err index_out_of_range
        else ok (p.b ∷ take first p.r, record p { used = true; r = drop first p.r }))
