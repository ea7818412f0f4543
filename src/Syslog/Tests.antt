-- ===== src/Syslog/Tests.antt =====
-- Priorities of syslog.go.
use cypress.Base.{
  ℕ, Option, none, List, [], ◌∷◌, ◌++◌, length, false, ◌≡◌, refl, some, inr, arith, All,
  if◌then◌else◌,
}
use cypress.Base.Text.{Text, codes, same, lacks-Without}
use cypress.Base.Int.{pos}
use cypress.Base.Decimal.{decimal, all_digits, digits_value}
use cypress.Base.Results.{ok, err, index_out_of_range}
use cypress.Message.Types.{Message, Attribute}
use cypress.Message.Attributes.{empty_attribute, add_string, add_int}
use cypress.Message.Tags.{add_tag}
use cypress.Message.Symbols.{version_symbols, find_index}
use cypress.Syslog.{priority_names}
use cypress.Syslog.Connections.{LogLine}
use cypress.Syslog.Reader.{trim_space, trim_left, prefix_width, has_prefix}
use cypress.Syslog.Structured.{stamped, read_structured}
use cypress.Syslog.Escapes.{IsName, add_params, params_text, read_structured-params}
use cypress.Syslog.Lines.{line_text, line_message}
use cypress.Syslog.Legacy.{run_line}
use cypress.Syslog.Priority.{priority_names_cases}

cron_notice : priority_names (pos 77) ≡ ok (some (codes "clock"), codes "notice")
unfolding priority_names
cron_notice = refl

priority_names_cases_example : priority_names (pos 195) ≡ err index_out_of_range
priority_names_cases_example = (priority_names_cases 195).0 (inr (omega arith, omega arith))

abbrev month_first : Text → Text → Option ℕ
month_first fmt t = if same (codes "Jan 02 15:04:05") fmt then some 7 else none

abbrev blank : Message ℕ
blank = stamped 7

abbrev a_params : List (Text × Text)
a_params = (codes "a", codes "x\"y") ∷ (codes "b", codes "") ∷ []

abbrev text_attribute : Text → Text → Attribute
text_attribute name val = record empty_attribute { skey = some name; sval = some val }

abbrev with_params : Message ℕ
with_params = record blank {
  attributes = text_attribute (codes "id.a") (codes "x\"y") ∷ text_attribute (codes "id.b") [] ∷ [];
}

params_added : add_params (codes "id") blank a_params ≡ ok with_params
unfolding add_string version_symbols find_index
params_added = refl

params_named : All (λ p. IsName p.0) a_params
params_named = (
  ((λ e. absurd (omega arith)), (λ e. absurd (omega arith)), lacks-Without b'=' (codes "a") refl),
  (
    ((λ e. absurd (omega arith)), (λ e. absurd (omega arith)), lacks-Without b'=' (codes "b") refl),
    tt,
  ),
)

read_structured-params_example :
    (v : ℕ) × (read_structured blank (record {
      r = ((codes "[" ++ (codes "id" ++ codes " ")) ++ params_text a_params) ++ codes " m";
      used = 0;
    })
      ≡ ok (with_params, record { r = codes " m"; used = v }))
read_structured-params_example =
    read_structured-params (codes "id") blank with_params a_params (codes " m") 0
      (lacks-Without b' ' (codes "id") refl) params_named params_added

abbrev a_line : Text
a_line = line_text 34 (codes "Oct 11 22:14:15") (codes "h") (codes "su") 12 (codes " hi")

-- What the line stands for: the message that the computation gives.
abbrev a_message : Message ℕ
a_message = elim (line_message 7 (pos 34) (codes "h") (codes "su") (pos 12) (codes " hi\n")) [
  | ok m ↦ m
  | err e ↦ blank
]

a_line_run :
    run_line month_first false 100 (a_line ++ codes "<3")
    ≡ ok (a_message, length a_line, codes "<3")
unfolding run_line priority_names add_string add_int version_symbols find_index add_tag same decimal
    all_digits digits_value trim_space trim_left prefix_width has_prefix
a_line_run = refl

-- A no-break space and an ideographic space are cut off, a byte that is no character is not.
wide_spaces :
    trim_space (0xc2 ∷ 0xa0 ∷ b'a' ∷ 0xa0 ∷ 0xe3 ∷ 0x80 ∷ 0x80 ∷ 10 ∷ []) ≡ b'a' ∷ 0xa0 ∷ []
unfolding trim_space trim_left prefix_width has_prefix
wide_spaces = refl

abbrev a_log_line : LogLine ℕ
a_log_line = record {
  prio = 34;
  pid = 12;
  c = b'O';
  d = b'c';
  stamp = codes "t 11 22:14:15";
  host = codes "h";
  tag = codes "su";
  msg = codes " hi";
  ts = 7;
  m = a_message;
}
