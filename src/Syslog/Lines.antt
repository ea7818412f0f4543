-- ===== src/Syslog/Lines.antt =====
-- A line of RFC 3164 as a sender writes it, and what `parseSyslog` makes of it.
use cypress.Base.{ℕ, ◌≡◌, ◌⊎◌, Option, none, some, ◌∷◌, ◌++◌, if◌then◌else◌}
use cypress.Base.Text.{Text, codes}
use cypress.Base.Int.{ℤ}
use cypress.Base.Decimal.{decimal}
use cypress.Base.Results.{Result, ok, Panic, ◌>>=◌ as try}
use cypress.Message.Types.{Message}
use cypress.Message.Tags.{add_tag}
use cypress.Message.Attributes.{add_string, add_int}
use cypress.Syslog.Reader.{◌>>=◌, trim_space}
use cypress.Syslog.Structured.{stamped}
use cypress.Syslog.Legacy.{is_zero}
use cypress.Syslog.{priority_names}
use cypress.Syslog.Reads.{Reads}
use cypress.Syslog.Pids.{tag_text}

-- A line to its end: what stands behind the priority, and the whole.
abbrev pub behind_priority : Text → Text → Text → ℕ → Text → Text
behind_priority stamp host tag pid msg =
    stamp
    ++ (b' ' ∷ ((host ++ codes " ") ++ ((tag_text tag pid ++ codes ":") ++ (msg ++ codes "\n"))))

abbrev pub line_text : ℕ → Text → Text → Text → ℕ → Text → Text
line_text prio stamp host tag pid msg =
    (b'<' ∷ (decimal prio ++ codes ">")) ++ behind_priority stamp host tag pid msg

module _ {T : Type 0} where
  -- The priority of a line, as attributes of a message.
  abbrev pub priority_message : ℤ → Message T → Result Panic (Message T)
  priority_message prio m = try (priority_names prio) λ names.
      try (elim names.0 [ none ↦ ok m | some f ↦ add_string m (codes "facility") f ])
        λ m'. add_string m' (codes "severity") names.1

  -- The message that a line stands for.
  abbrev pub line_message : T → ℤ → Text → Text → ℤ → Text → Result Panic (Message T)
  line_message ts prio host tag pid msg =
      try (priority_message prio (add_tag (stamped ts) (codes "host") host)) λ m1.
        try (add_string m1 (codes "tag") tag) λ m2.
          try (if is_zero pid then ok m2 else add_int m2 (codes "pid") pid)
            λ m3. add_string m3 (codes "message") (trim_space msg)

  -- A time stamp of RFC 3164, as the first two formats read it: the day has two digits, or a space
  -- and one digit.
  abbrev pub IsStamp : (Text → Text → Option T) → Text → T → Type 0
  IsStamp parse_time stamp ts =
      (parse_time (codes "Jan 02 15:04:05") stamp ≡ some ts)
      ⊎ ((parse_time (codes "Jan 02 15:04:05") stamp ≡ none)
          × (parse_time (codes "Jan  2 15:04:05") stamp ≡ some ts))
