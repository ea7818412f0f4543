-- ===== src/Stream/Decoder.antt =====
-- decoder.go and stream_decoder.go: finding out what a stream holds, and reading its messages.
use cypress.Base.{
  ℕ, Bool, true, false, Option, none, some, List, [], ◌∷◌, ◌||◌, reverse, ◌==◌, if◌then◌else◌,
}
use cypress.Base.Text.{codes}
use cypress.Base.Results.{Result, ok, err, Panic}
use cypress.Message.Types.{Message}
use cypress.Message.Attributes.{add_string}
use cypress.Stream.Frames.{Payload, DecodeError, eof, decode_native}
use cypress.Stream.Headers.{StreamHeader, get_compression, probe}
use cypress.Stream.Compression.{Decompressors, CompressionPanic, read_compressed}

-- The four decoders that a probe may set.
pub data Format : Type 0 where
  native_format kv_format json_format bare_format : Format

-- `ReadString('\n')`: the line with its end, and the rest; `none` where there is no end.
unfoldable pub read_line : List ℕ → Option (List ℕ × List ℕ)
read_line [] = none
read_line (c ∷ cs) =
    if c == 10
    then some (c ∷ [], cs)
    else elim (read_line cs) [ none ↦ none | some (l, rest) ↦ some (c ∷ l, rest) ]

abbrev trimmed_off : ℕ → Bool
trimmed_off c = c == 32 || c == 9 || c == 10

unfoldable pub drop_blanks : List ℕ → List ℕ
drop_blanks [] = []
drop_blanks (c ∷ cs) = if trimmed_off c then drop_blanks cs else c ∷ cs

-- `strings.TrimRight(line, " \t\n")`
unfoldable pub trim_right : List ℕ → List ℕ
unfolding drop_blanks
trim_right line = reverse (drop_blanks (reverse line))

-- What a call of `Decode` may return, besides a message.
pub data Fault : Type 0 where
  decode_error : DecodeError → Fault
  panicked : Panic → Fault
  bad_stream : CompressionPanic → Fault

-- The parsers of the other formats, and the time at which `Log` makes a message.
pub record Parsers (T : Type 0) : Type 0 where
  pub kv : List ℕ → Result DecodeError (Message T × List ℕ)
  pub js : List ℕ → Result DecodeError (Message T × List ℕ)
  pub now : T

-- The decoder that is set, if one is, and the bytes still to come.
pub record Decoder : Type 0 where
  pub format : Option Format
  pub r : List ℕ

-- `Decoder.probe`
unfoldable pub probe_format : List ℕ → Result DecodeError Format
probe_format [] = err eof
probe_format (b ∷ rest) = ok (
    if b == b'+'
    then native_format
    else (if b == b'>' then kv_format else (if b == b'{' then json_format else bare_format)))

-- `StreamDecoder`; `header` is nil before the probe.
pub record StreamDecoder : Type 0 where
  pub r : List ℕ
  pub init : Bool
  pub dec : Decoder
  pub header : Option StreamHeader

-- `NewStreamDecoder`
unfoldable pub new_stream_decoder : List ℕ → StreamDecoder
new_stream_decoder r = record {
  r = r;
  init = false;
  dec = record { format = none; r = r };
  header = none;
}

module _ {T : Type 0} (p : Payload (Message T)) (ps : Parsers T) where
  -- `decodeBare`
  unfoldable pub decode_bare : List ℕ → Result Fault (Message T × List ℕ)
  unfolding read_line trim_right
  decode_bare src = elim (read_line src) [
    | none ↦ err (decode_error eof)
    | some (line, rest) ↦
        elim (add_string
          (record {
            version = 1;
            timestamp = some ps.now;
            msg_type = some 0;
            attributes = [];
            session_id = none;
            tags = [];
          })
          (codes "message") (trim_right line)) [ err e ↦ err (panicked e) | ok m ↦ ok (m, rest) ]
  ]

  abbrev pub lift : Result DecodeError (Message T × List ℕ) → Result Fault (Message T × List ℕ)
  lift (ok a) = ok a
  lift (err e) = err (decode_error e)

  unfoldable pub decode_as : Format → List ℕ → Result Fault (Message T × List ℕ)
  unfolding decode_native decode_bare
  decode_as native_format src = lift (decode_native p src)
  decode_as kv_format src = lift (ps.kv src)
  decode_as json_format src = elim (lift (ps.js src)) [
    | err e ↦ err e
    | ok (m, rest) ↦ ok (record m { version = 1 }, rest)
  ]
  decode_as bare_format src = decode_bare src

  -- `Decoder.Decode`. After an error the stream is not read further, so its place is not kept.
  unfoldable pub decode : Decoder → Result Fault (Message T) × Decoder
  unfolding probe_format decode_as
  decode d =
      let run : Format → Result Fault (Message T) × Decoder = λ f. elim (decode_as f d.r) [
        | err e ↦ (err e, record { format = some f; r = [] })
        | ok (m, rest) ↦ (ok m, record { format = some f; r = rest })
      ] in
      elim d.format [
        | some f ↦ run f
        | none ↦ elim (probe_format d.r) [ err e ↦ (err (decode_error e), d) | ok f ↦ run f ]
      ]

  module _ (h : Payload StreamHeader) (d : Decompressors) where
    -- `StreamDecoder.Probe`
    unfoldable pub probe_stream : StreamDecoder → Result Fault (Unit {0}) × StreamDecoder
    unfolding probe get_compression read_compressed
    probe_stream s =
        let started = record s { init = true } in
        elim (probe h s.r) [
          | err e ↦ (err (decode_error e), started)
          | ok (hdr, rest) ↦ elim (read_compressed d (get_compression hdr) rest) [
            | err e ↦ (err (bad_stream e), record started { header = some hdr })
            | ok src ↦ (
              ok tt,
              record started { header = some hdr; dec = record { format = none; r = src } },
            )
          ]
        ]

    -- `StreamDecoder.Generate`
    unfoldable pub generate : StreamDecoder → Result Fault (Message T) × StreamDecoder
    unfolding probe_stream decode
    generate s =
        let run : StreamDecoder → Result Fault (Message T) × StreamDecoder =
          λ t. ((decode t.dec).0, record t { dec = (decode t.dec).1 }) in
        if s.init then run s else elim (probe_stream s).0 [
          | err e ↦ (err e, (probe_stream s).1)
          | ok _ ↦ run (probe_stream s).1
        ]
