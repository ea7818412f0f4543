-- ===== src/Stream/Tests.antt =====
-- Streams of small messages.
use cypress.Base.{
  ℕ, ◌<◌, ◌%◌, ◌^◌, ◌≡◌, refl, true, false, Option, none, some, List, [], ◌∷◌, ◌++◌, length, arith,
  All, ◌==◌, if◌then◌else◌, ap, subst,
}
use cypress.Base.Text.{codes}
use cypress.Base.Results.{ok, err}
use cypress.Message.Types.{Message}
use cypress.Codec.{required_not_set, copy, widen, StampCodec}
use cypress.Codec.Wire.{message_bytes, groups}
use cypress.Codec.Writing.{copy-Emits}
use cypress.Send.{Send, ack, read_ack}
use cypress.Send.Rounds.{send_all}
use cypress.Stream.Frames.{Payload, eof, encode, decode_native, default_message}
use cypress.Stream.Marshalled.{message_payload, message_payload-Encodes}
use cypress.Stream.FrameRoundTrip.{Encodes, decode_native-encode, decode_native-encode_broken}
use cypress.Stream.Compression.{
  Decompressors, new_snappy_writer, snappy_flush, default_snappy_chunk_buffer,
}
use cypress.Stream.Headers.{
  StreamHeader, get_compression, is_reliable, empty_header, BytePeekReader,
}
use cypress.Stream.Encoder.{new_stream_encoder, write_custom_header, flush, receive_all}
use cypress.Stream.Decoder.{decode_error, Parsers, new_stream_decoder}
use cypress.Stream.RoundTrip.{generate_times, generate-receive_all, Carries}
use cypress.Stream.Receiver.{recv_times, new_recv}
use cypress.Stream.Acknowledged.{sent_and_acknowledged}
use cypress.Stream.Chunks.{joined, all_written, write_many, write_many-all_written}

abbrev of_type : ℕ → ℕ → Message ℕ
of_type version n = record default_message {
  version = version;
  timestamp = some 0;
  msg_type = some n;
}

-- A time stamp of two bytes.
abbrev two_bytes : ℕ → List ℕ
two_bytes t = t % 256 ∷ 7 ∷ []

abbrev two_byte_stamps : StampCodec ℕ
two_byte_stamps = record { size = λ t. 2; marshal_to = λ t. copy (two_bytes t) }

-- An `Unmarshal` for messages of version 0 or 1 with no more than a time stamp and a type below 128. The
-- bits of the version are added to those that the message has.
abbrev read_type : Message ℕ → List ℕ → Option (Message ℕ)
read_type m (_ ∷ _ ∷ t ∷ _ ∷ _ ∷ n ∷ _ ∷ v ∷ []) =
    some (record m {
      version = if v == 0 then m.version else 1;
      timestamp = some t;
      msg_type = some n;
    })
read_type m _ = none

abbrev typed : Payload (Message ℕ)
typed = message_payload two_byte_stamps read_type

abbrev wire_of : ℕ → ℕ → List ℕ
wire_of version n = 10 ∷ 2 ∷ 0 ∷ 7 ∷ 16 ∷ n ∷ 48 ∷ version ∷ []

typed-Encodes :
    (version n : ℕ)
    → message_bytes two_bytes 0 n (of_type version n) ≡ wire_of version n
    → Encodes typed (of_type version n) (wire_of version n)
typed-Encodes version n e =
    subst (λ bs. Encodes typed (of_type version n) bs) e
      (message_payload-Encodes two_byte_stamps two_bytes (λ t. refl) (λ t. copy-Emits (two_bytes t))
        read_type (of_type version n) 0 n refl refl (omega (arith, ap length e)))

old_message : Encodes typed (of_type 0 1) (wire_of 0 1)
unfolding groups widen
old_message = typed-Encodes 0 1 refl

new_message : Encodes typed (of_type 1 2) (wire_of 1 2)
unfolding groups widen
new_message = typed-Encodes 1 2 refl

-- The message of version 0 comes back as one of version 1.
abbrev traffic : List (Message ℕ × Message ℕ)
traffic = (of_type 0 1, of_type 1 1) ∷ (of_type 1 2, of_type 1 2) ∷ []

traffic-Carries : All (Carries typed default_message) traffic
traffic-Carries = ((wire_of 0 1, old_message, refl), ((wire_of 1 2, new_message, refl), tt))

abbrev reliable_header : StreamHeader
reliable_header = record { compression = some 0; mode = some 1 }

-- Both fields, one after the other.
abbrev header_bytes : StreamHeader → List ℕ
header_bytes h =
    8
    ∷ elim h.compression [ none ↦ 0 | some c ↦ c ]
    ∷ 16
    ∷ elim h.mode [ none ↦ 0 | some m ↦ m ]
    ∷ []

abbrev read_header : StreamHeader → List ℕ → Option StreamHeader
read_header h (_ ∷ c ∷ _ ∷ m ∷ []) = some (record { compression = some c; mode = some m })
read_header h _ = none

abbrev header_codec : Payload StreamHeader
header_codec = record {
  size = λ h. 4;
  marshal_to = λ h. copy (header_bytes h);
  unmarshal = read_header;
}

header-Carries : Carries header_codec empty_header (reliable_header, reliable_header)
header-Carries = (
  8 ∷ 0 ∷ 16 ∷ 1 ∷ [],
  record { emits = copy-Emits (8 ∷ 0 ∷ 16 ∷ 1 ∷ []); sized = refl; small = omega arith },
  refl,
)

abbrev no_parsers : Parsers ℕ
no_parsers = record { kv = λ bs. err eof; js = λ bs. err eof; now = 0 }

abbrev no_decompressors : Decompressors
no_decompressors = record { unsnappy = λ bs. bs; unzlib = λ bs. ok bs }

decode_native-encode_example :
    ((encode typed (of_type 0 1)).1 ≡ ok (13 % 2 ^ 64))
    × ((rest : List ℕ)
        → decode_native typed ((encode typed (of_type 0 1)).0 ++ rest) ≡ ok (of_type 1 1, rest))
decode_native-encode_example = decode_native-encode typed (of_type 0 1) (wire_of 0 1) old_message

-- A codec that refuses every message.
abbrev broken : Payload (Message ℕ)
broken = record {
  size = λ m. 2;
  marshal_to = λ m b. err (required_not_set (codes "timestamp"));
  unmarshal = λ m bs. elim bs [ [] ↦ none | n ∷ _ ↦ some (record m { msg_type = some n }) ];
}

decode_native-encode_broken_example :
    ((encode broken (of_type 1 3)).1 ≡ err (required_not_set (codes "timestamp")))
    × (decode_native broken ((encode broken (of_type 1 3)).0 ++ b'+' ∷ 5 ∷ 6 ∷ [])
        ≡ ok (record default_message { msg_type = some b'+' }, 6 ∷ []))
decode_native-encode_broken_example =
    decode_native-encode_broken broken (of_type 1 3) (required_not_set (codes "timestamp"))
      (b'+' ∷ 5 ∷ 6 ∷ []) (omega arith) (omega arith) refl

generate-receive_all_example :
    let s = flush (
      receive_all typed
        (of_type 0 1 ∷ of_type 1 2 ∷ [])
        (write_custom_header header_codec reliable_header new_stream_encoder).0) in
    generate_times typed no_parsers header_codec no_decompressors 3 (new_stream_decoder s.out)
    ≡ ok (of_type 1 1) ∷ ok (of_type 1 2) ∷ err (decode_error eof) ∷ []
unfolding get_compression
generate-receive_all_example =
    generate-receive_all typed no_parsers header_codec no_decompressors reliable_header
      reliable_header traffic header-Carries refl traffic-Carries

abbrev idle_send : Send ℕ (Message ℕ)
idle_send = record {
  closed = false;
  window = 20;
  available = 20;
  reqs = [];
  watched = false;
  notices = [];
  wire = [];
  reading = true;
}

abbrev batch : List (Message ℕ × Option ℕ)
batch = (of_type 0 1, some 41) ∷ (of_type 1 2, some 42) ∷ []

sent_and_acknowledged_example :
    let wire =
      (flush (
        receive_all typed
          (of_type 0 1 ∷ of_type 1 2 ∷ [])
          (write_custom_header header_codec reliable_header new_stream_encoder).0)).out in
    let (got, r) = recv_times typed no_parsers header_codec no_decompressors 2 (new_recv wire) in
    (got ≡ ok (of_type 1 1) ∷ ok (of_type 1 2) ∷ [])
    × (read_ack r.written (send_all batch idle_send) ≡ record idle_send {
      notices = ack 41 (of_type 0 1) ∷ ack 42 (of_type 1 2) ∷ [];
      wire = of_type 0 1 ∷ of_type 1 2 ∷ [];
    })
unfolding get_compression is_reliable
sent_and_acknowledged_example =
    sent_and_acknowledged typed no_parsers header_codec no_decompressors (some 41 ∷ some 42 ∷ [])
      traffic idle_send reliable_header reliable_header refl refl refl refl (omega arith)
      (omega arith) header-Carries refl refl traffic-Carries

write_many-all_written_example :
    let s = write_many ((1 ∷ 2 ∷ []) ∷ (3 ∷ []) ∷ []) new_snappy_writer in
    (all_written s ≡ 1 ∷ 2 ∷ 3 ∷ [])
    × (length s.buf < default_snappy_chunk_buffer)
    × ((joined (snappy_flush s).chunks ≡ 1 ∷ 2 ∷ 3 ∷ []) × ((snappy_flush s).buf ≡ []))
write_many-all_written_example = write_many-all_written ((1 ∷ 2 ∷ []) ∷ (3 ∷ []) ∷ [])

abbrev fresh_peek : BytePeekReader
fresh_peek = record { b = 60; used = false; r = 61 ∷ 62 ∷ [] }
