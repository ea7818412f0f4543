-- ===== src/Syslog/Totals.antt =====
-- The count that a line adds to `TotalBytes`.
use cypress.Base.{ℕ, ◌+◌, ◌≡◌, false, Option, none, some, List, length, arith, ◌==◌, inl, inr}
use cypress.Base.Text.{Text, codes, same}
use cypress.Base.Int.{ℤ, pos}
use cypress.Base.Results.{ok, Result-cases}
use cypress.Message.Types.{Message}
use cypress.Message.Attributes.{add_int}
use cypress.Syslog.Reader.{
  Parser, pure, fail, read_byte, peek, skip, read_field, atoi, ts_fmts, invalid_format, bad_number,
}
use cypress.Syslog.Structured.{stamped, parse_5424}
use cypress.Syslog.Legacy.{split_pid, read_priority, parse_3164, parse_syslog, run_line}
use cypress.Syslog.Legacy.{to_total, is_zero}
use cypress.Syslog.Counting.{
  Counts, bind-Counts, pure-Counts, fail-Counts, lift-Counts, if-Counts, read_byte-Counts,
  peek-Counts, skip-Counts, read_field-Counts, read_space-Counts, read_message-Counts,
  read_stamp-Counts, added-Counts, read_structured-Counts, add_priority-Counts,
}

read_priority-Counts : Counts read_priority
unfolding read_priority
read_priority-Counts = bind-Counts read_byte _ read_byte-Counts λ c.
    if-Counts (c == b'<') _ _
      (bind-Counts (read_field b'>') _ (read_field-Counts b'>') λ t. number_Counts (atoi t))
      (fail-Counts invalid_format)
  where
    number_Counts :
        (n : Option ℤ)
        → Counts (elim n as (λ _. Parser ℤ) [ none ↦ fail bad_number | some p ↦ pure p ])
    number_Counts none = fail-Counts bad_number
    number_Counts (some p) = pure-Counts p

module _ {T : Type 0} (parse_time : Text → Text → Option T) (ready total : ℕ) where
  parse_5424-Counts : (prio : ℤ) → Counts (parse_5424 parse_time ready total prio)
  unfolding parse_5424
  parse_5424-Counts prio = bind-Counts _ _ (read_stamp-Counts parse_time ts_fmts) λ ts.
      bind-Counts _ _ read_space-Counts λ _. bind-Counts _ _ (read_field-Counts 32) λ host.
        bind-Counts _ _ (read_field-Counts 32) λ tag.
          bind-Counts _ _ (read_field-Counts 32) λ procid.
            bind-Counts _ _ (read_field-Counts 32) λ msgid.
              bind-Counts _ _ (read_structured-Counts (stamped ts)) λ m.
                bind-Counts _ _ (read_message-Counts ready total) λ msg.
                  bind-Counts _ _ (add_priority-Counts prio _) λ m1.
                    bind-Counts _ _ (added-Counts m1 _ tag) λ m2.
                      bind-Counts _ _ (added-Counts m2 _ procid)
                        λ m3. bind-Counts _ _ (added-Counts m3 _ msgid) λ m4. added-Counts m4 _ _

  parse_3164-Counts : (prio : ℤ) → Counts (parse_3164 parse_time ready total prio)
  unfolding parse_3164
  parse_3164-Counts prio = bind-Counts _ _ (read_stamp-Counts parse_time ts_fmts) λ ts.
      bind-Counts _ _ read_space-Counts λ _. bind-Counts _ _ (read_field-Counts 32) λ host.
        bind-Counts _ _ (read_field-Counts b':') λ tag.
          bind-Counts _ _ (lift-Counts (split_pid tag)) λ name.
            bind-Counts _ _ (read_message-Counts ready total) λ msg.
              bind-Counts _ _ (add_priority-Counts prio _) λ m1.
                bind-Counts _ _ (added-Counts m1 _ name.0) λ m2.
                  bind-Counts _ _
                    (if-Counts (is_zero name.1) _ _ (pure-Counts m2)
                      (lift-Counts (add_int m2 (codes "pid") name.1)))
                    λ m3. added-Counts m3 _ _

  parse_syslog-Counts : Counts (parse_syslog parse_time ready total)
  unfolding parse_syslog
  parse_syslog-Counts = bind-Counts read_priority _ read_priority-Counts λ prio.
      bind-Counts (peek 2) _ (peek-Counts 2) λ p.
        if-Counts (same p (codes "1 ")) _ _
          (bind-Counts (skip 2) _ (skip-Counts 2) λ _. parse_5424-Counts prio)
          (parse_3164-Counts prio)

-- For lines that are not octet counted, each line adds to `TotalBytes` exactly the bytes that it took
-- off the connection, whichever of the two formats it has.
pub run_line_bytes :
    {T : Type 0} (parse_time : Text → Text → Option T) (ready : ℕ) (src : List ℕ) (m : Message T)
    (n : ℕ) (rest : List ℕ)
    → run_line parse_time false ready src ≡ ok (m, n, rest)
    → n + length rest ≡ length src
unfolding run_line
run_line_bytes parse_time ready src m n rest e =
    elim (Result-cases
      (parse_syslog parse_time ready (to_total (pos 0)) (record { r = src; used = 0 }))) [
        | inl ((k, t), r) ↦
            let (l, o) =
              (parse_syslog-Counts parse_time ready 0).counts (record { r = src; used = 0 }) k t
                r in
            ground arith
        | inr (x, r) ↦ absurd (ground arith)
      ]
