-- ===== src/Syslog.antt =====
-- plugins/syslog/syslog.go: the tables of facilities and severities, and their use on a priority.
pub mod Reader
pub mod Structured
pub mod Legacy
pub mod Reads
pub mod Escapes
pub mod Pids
pub mod Lines
pub mod Counting
pub mod Totals
pub mod Connections
pub mod Priority
pub mod Tests
use cypress.Base.{
  ℕ, ◌+◌, ◌-◌, ◌*◌, ◌/◌, ◌%◌, Option, none, some, List, [], ◌∷◌, length, ltb, if◌then◌else◌,
}
use cypress.Base.Text.{Text, codes}
use cypress.Base.Int.{ℤ, pos, negsuc}
use cypress.Base.Results.{Result, ok, err, Panic, index_out_of_range, ◌>>=◌}
use cypress.Base.Results.{index}

abbrev pub facility : List Text
facility =
    codes "kernel"
    ∷ codes "user"
    ∷ codes "mail"
    ∷ codes "system"
    ∷ codes "security"
    ∷ codes "internal"
    ∷ codes "line printer"
    ∷ codes "network news"
    ∷ codes "UUCP"
    ∷ codes "clock"
    ∷ codes "security"
    ∷ codes "FTP"
    ∷ codes "NTP"
    ∷ codes "audit"
    ∷ codes "alert"
    ∷ codes "clock"
    ∷ codes "local0"
    ∷ codes "local1"
    ∷ codes "local2"
    ∷ codes "local3"
    ∷ codes "local4"
    ∷ codes "local5"
    ∷ codes "local6"
    ∷ codes "local7"
    ∷ []

abbrev pub severity : List Text
severity =
    codes "emergency"
    ∷ codes "alert"
    ∷ codes "critical"
    ∷ codes "error"
    ∷ codes "warning"
    ∷ codes "notice"
    ∷ codes "info"
    ∷ codes "debug"
    ∷ []

-- The block of `parseSyslog` (and of `parse5425`) that adds the facility and the severity of a
-- priority: the two texts, the first where one is added. `strconv.Atoi` also gives negative numbers.
unfoldable pub priority_names : ℤ → Result Panic (Option Text × Text)
priority_names (negsuc n) = err index_out_of_range
priority_names (pos prio) =
    let fac = (if ltb (length facility) (prio / 8) then 0 else prio / 8) in
    if ltb 8 prio
    then (index facility fac >>= λ f. index severity (prio % 8) >>= λ s. ok (some f, s))
    else (index severity prio >>= λ s. ok (none, s))
