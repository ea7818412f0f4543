-- ===== src/Stream/Encoder.antt =====
-- stream_encoder.go: messages in frames behind a header, with no compression: `bufWriter` holds what is
-- written until it is full or flushed. The lock makes each method a step.
use cypress.Base.{
  ℕ, ◌+◌, ◌%◌, ◌^◌, Bool, true, false, none, some, List, [], ◌∷◌, ◌++◌, length, if◌then◌else◌,
}
use cypress.Base.Results.{Result, ok, err}
use cypress.Varint.{write_uvarint}
use cypress.Codec.{MarshalError, out_of_range}
use cypress.Stream.Frames.{Payload, encode}
use cypress.Stream.Headers.{StreamHeader}

-- `out` is what reached the writer `w`, `held` what the buffer of `ew` still holds. Before the header is
-- written messages go to `w` at once, and there is no `ew`.
pub record StreamEncoder : Type 0 where
  pub out : List ℕ
  pub wrapped : Bool
  pub held : List ℕ
  pub encoded : ℕ

-- `NewStreamEncoder` on a writer that is no terminal.
unfoldable pub new_stream_encoder : StreamEncoder
new_stream_encoder = record { out = []; wrapped = false; held = []; encoded = 0 }

-- `hdr.Marshal`: the buffer has the size of the header.
unfoldable pub marshal : {M : Type 0} → Payload M → M → Result MarshalError (List ℕ)
marshal p m = elim (p.marshal_to m (record { written = []; room = p.size m })) [
  | err e ↦ err e
  | ok b ↦ ok b.written
]

-- `WriteCustomHeader`, for a header that asks for no compression.
unfoldable pub write_custom_header :
    Payload StreamHeader
    → StreamHeader
    → StreamEncoder
    → StreamEncoder × Result MarshalError (Unit {0})
unfolding marshal
write_custom_header p hdr s =
    let marked = s.out ++ b'-' ∷ [] in
    elim (marshal p hdr) [
      | err e ↦ (record s { out = marked }, err e)
      | ok bytes ↦ elim (write_uvarint (length bytes % 2 ^ 64)) [
        | none ↦ (record s { out = marked }, err out_of_range)
        | some ls ↦ (record s { out = (marked ++ ls) ++ bytes; wrapped = true; held = [] }, ok tt)
      ]
    ]

-- A write through the encoder's writer.
unfoldable pub write_through : List ℕ → StreamEncoder → StreamEncoder
write_through bytes s =
    if s.wrapped then record s { held = s.held ++ bytes } else record s { out = s.out ++ bytes }

-- The count of an `Encode` that failed is 0.
abbrev counted : Result MarshalError ℕ → ℕ
counted (ok n) = n
counted (err e) = 0

-- `Receive`
unfoldable pub receive :
    {M : Type 0} → Payload M → M → StreamEncoder → StreamEncoder × Result MarshalError (Unit {0})
unfolding encode write_through
receive p m s =
    let (bytes, r) = encode p m in
    let t = write_through bytes s in
    (
      record t { encoded = (t.encoded + counted r) % 2 ^ 64 },
      elim r [ ok n ↦ ok tt | err e ↦ err e ],
    )

-- A flush of the buffer: by itself when it is full, or by `Flush`, `Close` or the timer.
unfoldable pub flush : StreamEncoder → StreamEncoder
flush s = record s { out = s.out ++ s.held; held = [] }

unfoldable pub receive_all : {M : Type 0} → Payload M → List M → StreamEncoder → StreamEncoder
unfolding receive
receive_all p [] s = s
receive_all p (m ∷ ms) s = receive_all p ms (receive p m s).0
