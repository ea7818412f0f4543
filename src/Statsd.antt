-- ===== src/Statsd.antt =====
-- statsd/server.go and metric.go: the metrics in a datagram. Floating point numbers are a parameter, with what
-- the code does with them.
pub mod Packets
pub mod Tests
use cypress.Base.{
  ℕ, zero, suc, ◌+◌, Bool, true, false, ◌||◌, Option, none, some, List, [], ◌∷◌, ◌++◌, length, ◌==◌,
  if◌then◌else◌,
}
use cypress.Base.Text.{Text}
use cypress.Base.Results.{Result, ok, err, Panic, index_out_of_range}

-- `MetricType`
pub data MetricType : Type 0 where
  counter timer gauge gauge_delta set : MetricType

pub record Metric (F : Type 0) : Type 0 where
  pub metric_type : MetricType
  pub bucket : Text
  pub value : F

pub data StatsdError : Type 0 where
  invalid_format bad_number : StatsdError
  panicked : Panic → StatsdError

-- What `ParseFloat` reads, the number 1, and `x * (1.0 / r)`.
pub record Floats (F : Type 0) : Type 0 where
  pub parse_float : Text → Option F
  pub one : F
  pub scaled : F → F → F

-- What stands in front of the first `d` and behind it: `IndexByte` and the two slices.
unfoldable pub cut : ℕ → Text → Option (Text × Text)
cut d [] = none
cut d (c ∷ cs) =
    let more = cut d cs in
    if c == d then some ([], cs) else elim more [ none ↦ none | some (s, t) ↦ some (c ∷ s, t) ]

module _ {F : Type 0} (floats : Floats F) where
  -- The rate behind the `@`, if there is one.
  unfoldable pub sample_rate : Text → Option F
  unfolding cut
  sample_rate rest = elim (cut b'@' rest) [
    | none ↦ some floats.one
    | some (s, t) ↦ floats.parse_float t
  ]

  -- The `switch` on the byte behind the bar. Neither text is looked at for its length first.
  unfoldable pub typed_metric : Text → Text → F → F → Text → Result StatsdError (Metric F)
  typed_metric bucket value v rate [] = err (panicked index_out_of_range)
  typed_metric bucket value v rate (c ∷ cs) =
      let timed : Metric F = record {
        metric_type = timer;
        bucket = bucket;
        value = floats.scaled v rate;
      } in
      let counted : Metric F = record {
        metric_type = counter;
        bucket = bucket;
        value = floats.scaled v rate;
      } in
      if c == b'm'
      then ok timed
      else (if c == b'g'
          then elim value [
            | [] ↦ err (panicked index_out_of_range)
            | s ∷ _ ↦ ok record {
              metric_type = if s == b'+' || s == b'-' then gauge_delta else gauge;
              bucket = bucket;
              value = v;
            }
          ]
          else (if c == b's'
              then ok record { metric_type = set; bucket = bucket; value = v }
              else ok counted))

  -- `parseLine`
  unfoldable pub parse_line : Text → Result StatsdError (Metric F)
  unfolding cut sample_rate typed_metric
  parse_line line = elim (cut b':' line) [
    | none ↦ err invalid_format
    | some (bucket, rest) ↦ elim (cut b'|' rest) [
      | none ↦ err invalid_format
      | some (value, kind) ↦ elim (floats.parse_float value) [
        | none ↦ err bad_number
        | some v ↦ elim (sample_rate kind) [
          | none ↦ err bad_number
          | some rate ↦ typed_metric bucket value v rate kind
        ]
      ]
    ]
  ]

  -- The loop of `parsePacket`, in at most `rounds` rounds.
  unfoldable pub packet_loop : ℕ → Text → Result StatsdError (List (Metric F))
  unfolding parse_line
  packet_loop zero pkt = ok []
  packet_loop (suc rounds) pkt = elim (cut b'\n' pkt) [
    | none ↦ elim (parse_line pkt) [ err e ↦ err e | ok m ↦ ok (m ∷ []) ]
    | some (single, rest) ↦
        let more = packet_loop rounds rest in
        elim (parse_line single) [
          | err e ↦ err e
          | ok m ↦ elim rest [
            | [] ↦ ok (m ∷ [])
            | _ ∷ _ ↦ elim more [ err e ↦ err e | ok ms ↦ ok (m ∷ ms) ]
          ]
        ]
  ]

  -- `parsePacket`: each round takes a byte at least.
  unfoldable pub parse_packet : Text → Result StatsdError (List (Metric F))
  unfolding packet_loop
  parse_packet pkt = packet_loop (suc (length pkt)) pkt

  -- `handlePacket`: what the handler is given, and the error.
  unfoldable pub handle_packet : Text → List (Metric F) × Option StatsdError
  unfolding parse_packet
  handle_packet pkt = elim (parse_packet pkt) [ err e ↦ ([], some e) | ok ms ↦ (ms, none) ]
