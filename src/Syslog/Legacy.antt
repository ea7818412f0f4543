-- ===== src/Syslog/Legacy.antt =====
-- `parseSyslog` of syslog.go: lines of RFC 3164, and the choice between the two formats; and the loop
-- over the lines of a connection.
use cypress.Base.{
  ℕ, zero, suc, ◌+◌, ◌%◌, ◌^◌, Bool, true, false, Option, none, some, List, [], ◌∷◌, take, ◌==◌,
  if◌then◌else◌,
}
use cypress.Base.Text.{Text, codes, same}
use cypress.Base.Int.{ℤ, pos, negsuc, to_uint64}
use cypress.Base.Results.{Result, ok, err, Panic}
use cypress.Message.Types.{Message}
use cypress.Message.Attributes.{add_int}
use cypress.Message.Tags.{add_tag}
use cypress.Syslog.Reader.{
  SyslogError, eof, invalid_format, bad_number, Input, Parser, ◌>>=◌, ◌>>◌, pure, fail, lift,
  read_byte, peek, skip, read_stamp, read_space, read_field, read_message, index_byte, slice,
  trim_space, atoi, ts_fmts,
}
use cypress.Syslog.Structured.{added, add_priority, stamped, parse_5424}

-- A tag may end in a process id in brackets. A right bracket in front of the left one makes the slice
-- expression panic.
unfoldable pub split_pid : Text → Result Panic (Text × ℤ)
unfolding index_byte slice atoi
split_pid tag = elim (index_byte b'[' tag) [
  | none ↦ ok (tag, pos 0)
  | some idx ↦ elim (index_byte b']' tag) [
    | none ↦ ok (tag, pos 0)
    | some right ↦ elim (slice tag (idx + 1) right) [
      | err e ↦ err e
      | ok digits ↦ elim (atoi digits) [ none ↦ ok (tag, pos 0) | some p ↦ ok (take idx tag, p) ]
    ]
  ]
]

abbrev pub is_zero : ℤ → Bool
is_zero (pos zero) = true
is_zero (pos (suc n)) = false
is_zero (negsuc n) = false

-- `<`, the priority and `>`.
unfoldable pub read_priority : Parser ℤ
unfolding read_byte read_field atoi
read_priority = read_byte >>= λ c.
    if c == b'<'
    then (read_field b'>' >>= λ t. elim (atoi t) [ none ↦ fail bad_number | some p ↦ pure p ])
    else fail invalid_format

-- The number in front of an octet counted line: `strconv.Atoi` of the text up to a space.
unfoldable pub read_count : Parser ℤ
unfolding read_field atoi
read_count = read_field 32 >>= λ t. elim (atoi t) [ none ↦ fail bad_number | some n ↦ pure n ]

abbrev pub to_total : ℤ → ℕ
to_total (pos n) = n
to_total (negsuc n) = 0

module _ {T : Type 0} (parse_time : Text → Text → Option T) where
  -- What stands behind the priority of a line of RFC 3164.
  unfoldable pub parse_3164 : ℕ → ℕ → ℤ → Parser (Message T)
  unfolding read_stamp read_space read_field split_pid read_message add_priority trim_space
  parse_3164 ready total prio = read_stamp parse_time ts_fmts >>= λ ts. read_space >>= λ _.
      read_field 32 >>= λ host. read_field b':' >>= λ tag. lift (split_pid tag) >>= λ name.
      read_message ready total >>= λ msg.
      add_priority prio (add_tag (stamped ts) (codes "host") host) >>= λ m1.
      added m1 (codes "tag") name.0 >>= λ m2.
      (if is_zero name.1 then pure m2 else lift (add_int m2 (codes "pid") name.1)) >>= λ m3.
      added m3 (codes "message") (trim_space msg)

  -- `parseSyslog`
  unfoldable pub parse_syslog : ℕ → ℕ → Parser (Message T)
  unfolding read_priority peek skip parse_3164 parse_5424
  parse_syslog ready total = read_priority >>= λ prio. peek 2 >>= λ p.
      if same p (codes "1 ")
      then (skip 2 >> parse_5424 parse_time ready total prio)
      else parse_3164 ready total prio

  -- One round of `runConn`, up to the call of the receiver: the message, and what the line adds to
  -- `TotalBytes`, the count in front of it or else the bytes that the line took.
  unfoldable pub run_line : Bool → ℕ → List ℕ → Result SyslogError (Message T × ℕ × List ℕ)
  unfolding read_count parse_syslog
  run_line octet_counted ready src =
      let start : Input = record { r = src; used = 0 } in
      elim ((if octet_counted then read_count else pure (pos 0)) start) [
        | err e ↦ err e
        | ok (sz, s) ↦ elim (parse_syslog ready (to_total sz) (record s { used = 0 })) [
          | err e ↦ err e
          | ok (m, t) ↦ ok (m, (if is_zero sz then t.used else to_uint64 sz), t.r)
        ]
      ]

  -- `runConn`, with a receiver that takes the messages: what it was given, `TotalBytes`, and the error
  -- that ends the loop. A line takes a byte at least.
  unfoldable pub run_conn : ℕ → Bool → ℕ → List ℕ → ℕ → List (Message T) × ℕ × SyslogError
  unfolding run_line
  run_conn zero octet_counted ready src bytes = ([], bytes, eof)
  run_conn (suc rounds) octet_counted ready src bytes = elim (run_line octet_counted ready src) [
    | err e ↦ ([], bytes, e)
    | ok (m, n, rest) ↦
        let more = run_conn rounds octet_counted ready rest ((bytes + n) % 2 ^ 64) in
        (m ∷ more.0, more.1, more.2)
  ]
