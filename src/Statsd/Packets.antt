-- ===== src/Statsd/Packets.antt =====
-- Datagrams of several lines, and the lines on which the parser panics.
use cypress.Base.{
  ℕ, zero, suc, ◌≤◌, ◌<◌, ◌≡◌, ◌↔◌, refl, Option, none, some, List, [], ◌∷◌, ◌++◌, length, All,
  arith, length-append, Option-cases, inl, inr,
}
use cypress.Base.Text.{Without, Text}
use cypress.Base.Results.{Result, ok, err, index_out_of_range, Result-cases}
use cypress.Statsd.{
  Metric, StatsdError, panicked, bad_number, Floats, cut, sample_rate, typed_metric, parse_line,
  packet_loop, parse_packet, handle_packet,
}

cut-hit : (d : ℕ) (s t : Text) → Without d s → cut d (s ++ d ∷ t) ≡ some (s, t)
unfolding cut
cut-hit d [] t h = ground arith
cut-hit d (c ∷ s) t (h, hs) = ground (arith, cut-hit d s t hs)

cut-miss : (d : ℕ) (s : Text) → Without d s → cut d s ≡ none
unfolding cut
cut-miss d [] h = refl
cut-miss d (c ∷ s) (h, hs) = ground (arith, cut-miss d s hs)

abbrev pub IsLine : Text → Type 0
IsLine t = Without b'\n' t

-- Lines, each with its line feed, and a last one without, if it is not empty.
abbrev pub datagram : List Text → Text → Text
datagram [] last = last
datagram (t ∷ ts) last = t ++ b'\n' ∷ datagram ts last

abbrev pub lines_with : List Text → Text → List Text
lines_with [] [] = []
lines_with [] (c ∷ cs) = (c ∷ cs) ∷ []
lines_with (t ∷ ts) last = t ∷ lines_with ts last

module _ {F : Type 0} (floats : Floats F) where
  -- The lines one by one, up to the first that is wrong.
  abbrev pub parse_lines : List Text → Result StatsdError (List (Metric F))
  parse_lines [] = ok []
  parse_lines (t ∷ ts) = elim (parse_line floats t) [
    | err e ↦ err e
    | ok m ↦ elim (parse_lines ts) [ err e ↦ err e | ok ms ↦ ok (m ∷ ms) ]
  ]

  last_line :
      (rounds : ℕ) (t : Text)
      → IsLine t
      → packet_loop floats (suc rounds) (t ++ b'\n' ∷ [])
        ≡ elim (parse_line floats t) as (λ _. Result StatsdError (List (Metric F))) [
          | err e ↦ err e
          | ok m ↦ ok (m ∷ [])
        ]
  unfolding packet_loop
  last_line rounds t h = rw (packet_loop, cut-hit b'\n' t [] h)

  next_line :
      (rounds : ℕ) (t : Text) (r : ℕ) (rs : Text)
      → IsLine t
      → packet_loop floats (suc rounds) (t ++ b'\n' ∷ (r ∷ rs))
        ≡ elim (parse_line floats t) as (λ _. Result StatsdError (List (Metric F))) [
          | err e ↦ err e
          | ok m ↦ elim (packet_loop floats rounds (r ∷ rs)) [ err e ↦ err e | ok ms ↦ ok (m ∷ ms) ]
        ]
  unfolding packet_loop
  next_line rounds t r rs h = rw (packet_loop, cut-hit b'\n' t (r ∷ rs) h)

  next_then :
      (rounds : ℕ) (t : Text) (r : ℕ) (rs : Text) (ts : List Text)
      → IsLine t
      → packet_loop floats rounds (r ∷ rs) ≡ parse_lines ts
      → packet_loop floats (suc rounds) (t ++ b'\n' ∷ (r ∷ rs)) ≡ parse_lines (t ∷ ts)
  next_then rounds t r rs ts h more = elim (Result-cases (parse_line floats t)) [
    | inl (m, right) ↦ rw (parse_lines, next_line rounds t r rs h, right, more)
    | inr (x, wrong) ↦ rw (parse_lines, next_line rounds t r rs h, wrong)
  ]

  only_line :
      (rounds c : ℕ) (cs : Text)
      → IsLine (c ∷ cs)
      → packet_loop floats (suc rounds) (c ∷ cs) ≡ parse_lines ((c ∷ cs) ∷ [])
  unfolding packet_loop
  only_line rounds c cs h = rw (packet_loop, cut-miss b'\n' (c ∷ cs) h)

  packet_loop-lines :
      (rounds : ℕ) (t : Text) (ts : List Text) (last : Text)
      → All IsLine (t ∷ ts)
      → IsLine last
      → length (t ∷ ts) < rounds
      → packet_loop floats rounds (datagram (t ∷ ts) last) ≡ parse_lines (lines_with (t ∷ ts) last)
  packet_loop-lines zero t ts last hs k l = absurd (omega arith)
  packet_loop-lines (suc rounds) t [] [] (h, hs) k l = last_line rounds t h
  packet_loop-lines (suc zero) t [] (c ∷ cs) (h, hs) k l = absurd (omega arith)
  packet_loop-lines (suc (suc rounds)) t [] (c ∷ cs) (h, hs) k l =
      next_then (suc rounds) t c cs ((c ∷ cs) ∷ []) h (only_line rounds c cs k)
  packet_loop-lines (suc rounds) t ([] ∷ ts) last (h, hs) k l =
      let more : packet_loop floats rounds (b'\n' ∷ datagram ts last)
          ≡ parse_lines (lines_with ([] ∷ ts) last) =
        packet_loop-lines rounds [] ts last hs k (omega arith) in
      next_then rounds t b'\n' (datagram ts last) (lines_with ([] ∷ ts) last) h more
  packet_loop-lines (suc rounds) t ((c ∷ u) ∷ ts) last (h, hs) k l =
      let more : packet_loop floats rounds (c ∷ (u ++ b'\n' ∷ datagram ts last))
          ≡ parse_lines (lines_with ((c ∷ u) ∷ ts) last) =
        packet_loop-lines rounds (c ∷ u) ts last hs k (omega arith) in
      next_then rounds t c (u ++ b'\n' ∷ datagram ts last) (lines_with ((c ∷ u) ∷ ts) last) h more

  datagram-length : (ts : List Text) (last : Text) → length ts ≤ length (datagram ts last)
  datagram-length [] last = omega arith
  datagram-length (t ∷ ts) last =
      omega (arith, length-append t (b'\n' ∷ datagram ts last), datagram-length ts last)

  -- A datagram of one ended line or more, and perhaps one that is not ended, is all or nothing: if every line
  -- is right the handler is given their metrics in order, and otherwise nothing at all, with the error
  -- of the first line that is wrong.
  pub handle_packet-lines :
      (t : Text) (ts : List Text) (last : Text)
      → All IsLine (t ∷ ts)
      → IsLine last
      → handle_packet floats (datagram (t ∷ ts) last)
        ≡ elim (parse_lines (lines_with (t ∷ ts) last))
            as (λ _. List (Metric F) × Option StatsdError) [
              | err e ↦ ([], some e)
              | ok ms ↦ (ms, none)
            ]
  unfolding handle_packet parse_packet
  handle_packet-lines t ts last hs k =
      let n = datagram-length (t ∷ ts) last in
      rw (
        handle_packet,
        packet_loop-lines (suc (length (datagram (t ∷ ts) last))) t ts last hs k (omega arith),
      )

  typed_panics :
      (bucket : Text) (s : ℕ) (value : Text) (v rate : F) (kind : Text)
      → typed_metric floats bucket (s ∷ value) v rate kind ≡ err (panicked index_out_of_range)
      → kind ≡ []
  unfolding typed_metric
  typed_panics bucket s value v rate [] e = refl
  typed_panics bucket s value v rate (c ∷ cs) e = absurd (ground arith)

  parse_line-parts :
      (bucket value kind : Text)
      → Without b':' bucket
      → Without b'|' value
      → parse_line floats (bucket ++ b':' ∷ (value ++ b'|' ∷ kind))
        ≡ elim (floats.parse_float value) as (λ _. Result StatsdError (Metric F)) [
          | none ↦ err bad_number
          | some v ↦ elim (sample_rate floats kind) [
            | none ↦ err bad_number
            | some rate ↦ typed_metric floats bucket value v rate kind
          ]
        ]
  unfolding parse_line
  parse_line-parts bucket value kind h k =
      rw (parse_line, cut-hit b':' bucket (value ++ b'|' ∷ kind) h, cut-hit b'|' value kind k)

  -- On a line with a bucket and a value the parser panics exactly if the value is a number and nothing
  -- stands behind the bar.
  pub parse_line_panics :
      (bucket value kind : Text)
      → floats.parse_float [] ≡ none
      → Without b':' bucket
      → Without b'|' value
      → (parse_line floats (bucket ++ b':' ∷ (value ++ b'|' ∷ kind))
          ≡ err (panicked index_out_of_range))
        ↔ ((v : F) × (floats.parse_float value ≡ some v)) × (kind ≡ [])
  unfolding sample_rate typed_metric
  parse_line_panics bucket [] kind e h k =
      let same_line = parse_line-parts bucket [] kind h k in
      (λ p. absurd (ground arith), λ q. absurd (ground arith))
  parse_line_panics bucket (s ∷ value) kind e h k =
      let same_line = parse_line-parts bucket (s ∷ value) kind h k in
      (
        λ p. elim (Option-cases (floats.parse_float (s ∷ value))) [
          | inl no_number ↦ absurd (ground arith)
          | inr (v, number) ↦ elim (Option-cases (sample_rate floats kind)) [
            | inl no_rate ↦ absurd (ground arith)
            | inr (rate, has_rate) ↦ (
              (v, number),
              typed_panics bucket s value v rate kind (rw (same_line, number, has_rate) at p),
            )
          ]
        ],
        λ ((v, number), nothing). rw (same_line, number, nothing, nothing),
      )
