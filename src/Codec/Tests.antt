-- ===== src/Codec/Tests.antt =====
-- A small message in the wire format.
use cypress.Base.{ℕ, ◌-◌, ◌≤◌, ◌≡◌, refl, some, none, true, List, [], ◌∷◌, ◌++◌, length, arith, ◌%◌}
use cypress.Base.Text.{codes}
use cypress.Base.Int.{negsuc}
use cypress.Base.Results.{ok}
use cypress.Message.Types.{Message}
use cypress.Message.Attributes.{empty_attribute}
use cypress.Varint.{write_uvarint}
use cypress.Codec.{Buffer, StampCodec, copy, encode_varint, sov, message_marshal, message_size}
use cypress.Codec.Wire.{message_bytes}
use cypress.Codec.Writing.{copy-Emits}
use cypress.Codec.Varints.{encode_varint-write_uvarint}
use cypress.Codec.Marshal.{message_marshal-message_bytes}

-- A time stamp of two bytes.
abbrev two_bytes : ℕ → List ℕ
two_bytes t = t % 256 ∷ 7 ∷ []

abbrev two_byte_stamps : StampCodec ℕ
two_byte_stamps = record { size = λ t. 2; marshal_to = λ t. copy (two_bytes t) }

abbrev tagged : Message ℕ
tagged = record {
  version = 1;
  timestamp = some 5;
  msg_type = some 0;
  attributes = record empty_attribute { key = 2; ival = some (negsuc 0); boolval = some true } ∷ [];
  session_id = none;
  tags = record { name = codes "env"; value = some (codes "x") } ∷ [];
}

message_marshal-message_bytes_example :
    (message_marshal two_byte_stamps tagged ≡ ok (message_bytes two_bytes 5 0 tagged))
    × (length (message_bytes two_bytes 5 0 tagged) ≡ message_size two_byte_stamps tagged)
message_marshal-message_bytes_example =
    (message_marshal-message_bytes two_byte_stamps two_bytes (λ t. refl)
        (λ t. copy-Emits (two_bytes t)) tagged).0
      5 0 refl refl

abbrev short : Buffer
short = record { written = 9 ∷ []; room = 4 }

encode_varint-write_uvarint_example :
    (bs : List ℕ) × (write_uvarint 300 ≡ some bs)
    × (sov 300 ≡ length bs)
    × (length bs ≤ 4
        → encode_varint 300 short ≡ ok (record { written = 9 ∷ [] ++ bs; room = 4 - length bs }))
encode_varint-write_uvarint_example = encode_varint-write_uvarint 300 short (omega arith)
