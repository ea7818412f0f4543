-- ===== src/Stream/Marshalled.antt =====
-- A message with the `Size` and `MarshalTo` of log.pb.go.
use cypress.Base.{ℕ, ◌^◌, ◌<◌, ◌≡◌, Option, some, List, length}
use cypress.Message.Types.{Message}
use cypress.Codec.{StampCodec, message_size, message_marshal_to}
use cypress.Codec.Wire.{message_bytes}
use cypress.Codec.Writing.{Emits}
use cypress.Codec.Marshal.{message-length, message-Emits}
use cypress.Stream.Frames.{Payload}
use cypress.Stream.FrameRoundTrip.{Encodes}

-- The methods of a message, with an `Unmarshal`.
abbrev pub message_payload :
    {T : Type 0} → StampCodec T → (Message T → List ℕ → Option (Message T)) → Payload (Message T)
message_payload c unmarshal = record {
  size = message_size c;
  marshal_to = message_marshal_to c;
  unmarshal = unmarshal;
}

-- Every message with a time stamp and a type can be encoded, if its encoding is no longer than a varint
-- of a length can tell.
pub message_payload-Encodes :
    {T : Type 0} (c : StampCodec T) (stamp : T → List ℕ)
    (time_length : (t : T) → length (stamp t) ≡ c.size t)
    (stamp-Emits : (t : T) → Emits (c.marshal_to t) (stamp t))
    (unmarshal : Message T → List ℕ → Option (Message T)) (m : Message T) (t : T) (v : ℕ)
    → m.timestamp ≡ some t
    → m.msg_type ≡ some v
    → length (message_bytes stamp t v m) < 2 ^ 64
    → Encodes (message_payload c unmarshal) m (message_bytes stamp t v m)
message_payload-Encodes c stamp time_length stamp-Emits unmarshal m t v et ev h = record {
  emits = message-Emits c stamp time_length stamp-Emits m t v et ev;
  sized = message-length c stamp time_length stamp-Emits m t v et ev;
  small = h;
}
