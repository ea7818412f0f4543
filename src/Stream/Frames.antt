-- ===== src/Stream/Frames.antt =====
-- encoder.go, and `decodeNative` of decoder.go: one message in a frame, which is `+`, its size as a varint
-- and its encoding.
use cypress.Base.{
  ℕ, ◌+◌, ◌%◌, ◌^◌, Option, none, some, List, [], ◌∷◌, ◌++◌, length, take, drop, ltb, leb, ◌==◌,
  if◌then◌else◌,
}
use cypress.Base.Results.{Result, ok, err}
use cypress.Message.Types.{Message}
use cypress.Varint.{VarintError, put_uvarint, read_uvarint}
use cypress.Codec.{MarshalError, out_of_range, Writer}

-- The generated methods of a message or a header: `Size`, `MarshalTo` and `Unmarshal`, which goes on
-- from what the message holds before. Those of a message are modelled by `Codec`, but `Unmarshal`.
pub record Payload (M : Type 0) : Type 0 where
  pub size : M → ℕ
  pub marshal_to : M → Writer
  pub unmarshal : M → List ℕ → Option M

-- `io.EOF`, `ErrUnknownStreamType`, `io.ErrUnexpectedEOF`, an error of `Unmarshal` and one of a varint;
-- `oversized` is the panic of a buffer of 2^63 bytes or more.
pub data DecodeError : Type 0 where
  eof unknown_stream_type unexpected_eof malformed oversized : DecodeError
  bad_length : VarintError → DecodeError

-- What comes of a stream that has fewer bytes than the `n` announced: no buffer can be made, the
-- stream is at its end, or it ends within them.
abbrev pub too_short : ℕ → List ℕ → DecodeError
too_short n rest =
    if leb (2 ^ 63) n then oversized else (if length rest == 0 then eof else unexpected_eof)

-- `&Message{Version: DEFAULT_VERSION}`
abbrev pub default_message : {T : Type 0} → Message T
default_message = record {
  version = 1;
  timestamp = none;
  msg_type = none;
  attributes = [];
  session_id = none;
  tags = [];
}

module _ {M : Type 0} (p : Payload M) where
  -- `Encoder.Encode`: the bytes that it writes, also when it fails, and what it returns. The buffer
  -- comes from a pool of 128 bytes, or is made to measure.
  unfoldable pub encode : M → List ℕ × Result MarshalError ℕ
  encode m =
      let sz = p.size m in
      elim (put_uvarint 127 (sz % 2 ^ 64)) [
        | none ↦ ([], err out_of_range)
        | some bs ↦
            elim (p.marshal_to m (record { written = []; room = if ltb 128 sz then sz else 128 })) [
              | err e ↦ (b'+' ∷ bs, err e)
              | ok b ↦ ((b'+' ∷ bs) ++ b.written, ok ((sz + 5) % 2 ^ 64))
            ]
      ]

  -- A buffer for as many bytes as a varint announces, `io.ReadFull` of them, and `Unmarshal` into a
  -- message that may hold something already. A stream has fewer than 2^63 bytes.
  unfoldable pub read_sized : M → List ℕ → Result DecodeError (M × List ℕ)
  read_sized start src = elim (read_uvarint src) [
    | err e ↦ err (bad_length e)
    | ok (n, rest) ↦
        if ltb (length rest) n
        then err (too_short n rest)
        else elim (p.unmarshal start (take n rest)) [
          | none ↦ err malformed
          | some m ↦ ok (m, drop n rest)
        ]
  ]

-- `decodeNative`
unfoldable pub decode_native :
    {T : Type 0} → Payload (Message T) → List ℕ → Result DecodeError (Message T × List ℕ)
unfolding read_sized
decode_native p [] = err eof
decode_native p (b ∷ rest) =
    if b == b'+' then read_sized p default_message rest else err unknown_stream_type
