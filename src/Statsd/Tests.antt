-- ===== src/Statsd/Tests.antt =====
-- Runs on datagrams, with numbers of one digit and a rate that is not used.
use cypress.Base.{ℕ, ◌-◌, ◌≡◌, ◌↔◌, refl, Option, none, some, [], ◌∷◌, ◌++◌}
use cypress.Base.Text.{Text, codes, lacks-Without}
use cypress.Base.Results.{ok, err, index_out_of_range}
use cypress.Statsd.{Floats, counter, panicked, invalid_format, parse_line, handle_packet}
use cypress.Statsd.Packets.{datagram, handle_packet-lines, parse_line_panics}

abbrev digit : Text → Option ℕ
digit [] = none
digit (c ∷ cs) = some (c - 48)

abbrev digits : Floats ℕ
digits = record { parse_float = digit; one = 1; scaled = λ x r. x }

one_metric :
    parse_line digits (codes "a:1|c|@0.1")
    ≡ ok record { metric_type = counter; bucket = codes "a"; value = 1 }
unfolding parse_line
one_metric = refl

handle_packet-lines_example :
    handle_packet digits (datagram (codes "a:1|c" ∷ []) (codes "b")) ≡ ([], some invalid_format)
unfolding parse_line
handle_packet-lines_example =
    handle_packet-lines digits (codes "a:1|c") [] (codes "b")
      (lacks-Without b'\n' (codes "a:1|c") refl, tt) (lacks-Without b'\n' (codes "b") refl)

abbrev no_kind : Text
no_kind = []

parse_line_panics_example :
    (parse_line digits (codes "a" ++ b':' ∷ (codes "1" ++ b'|' ∷ no_kind))
      ≡ err (panicked index_out_of_range))
    ↔ ((v : ℕ) × (digit (codes "1") ≡ some v)) × (no_kind ≡ [])
parse_line_panics_example =
    parse_line_panics digits (codes "a") (codes "1") no_kind refl
      (lacks-Without b':' (codes "a") refl) (lacks-Without b'|' (codes "1") refl)
