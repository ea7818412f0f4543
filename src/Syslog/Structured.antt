-- ===== src/Syslog/Structured.antt =====
-- `parse5425` of syslog.go: lines of RFC 5424, with structured data.
use cypress.Base.{
  ℕ, zero, suc, ◌+◌, ◌-◌, Option, none, some, List, [], ◌∷◌, ◌++◌, length, take, drop, ◌==◌,
  if◌then◌else◌,
}
use cypress.Base.Text.{Text, codes, same}
use cypress.Base.Int.{ℤ}
use cypress.Base.Results.{ok, err}
use cypress.Message.Types.{Message}
use cypress.Message.Attributes.{add_string}
use cypress.Message.Tags.{add_tag}
use cypress.Syslog.{priority_names}
use cypress.Syslog.Reader.{
  eof, invalid_format, Parser, ◌>>=◌, ◌>>◌, pure, fail, lift, read_byte, read_string, peek,
  read_stamp, read_space, read_field, read_message, slice, trim_space, ts_fmts,
}

-- The value of a parameter, up to its quote: a backslash takes the byte behind it as it is.
unfoldable pub quoted : List ℕ → Option (Text × List ℕ)
quoted [] = none
quoted (c ∷ []) = if c == b'"' then some ([], []) else none
quoted (c ∷ e ∷ es) =
    let plain = quoted (e ∷ es) in
    let escaped = quoted es in
    if c == b'"'
    then some ([], e ∷ es)
    else (if c == b'\\'
        then elim escaped [ none ↦ none | some (v, rest) ↦ some (e ∷ v, rest) ]
        else elim plain [ none ↦ none | some (v, rest) ↦ some (c ∷ v, rest) ])

-- The loop that reads it, byte by byte.
unfoldable pub read_quoted : Parser Text
unfolding quoted
read_quoted s = elim (quoted s.r) [
  | none ↦ err eof
  | some (v, rest) ↦ ok (v, record { r = rest; used = s.used + (length s.r - length rest) })
]

-- `AddString` where the version is known.
abbrev pub added : {T : Type 0} → Message T → Text → Text → Parser (Message T)
added m key val = lift (add_string m key val)

-- "\xEF\xBB\xBF", the mark of UTF-8.
abbrev pub without_mark : Text → Text
without_mark t = if same (take 3 t) (0xef ∷ 0xbb ∷ 0xbf ∷ []) then drop 3 t else t

module _ {T : Type 0} where
  -- The parameters of one element, in at most `rounds` rounds: each one that does not end them reads
  -- two bytes at least.
  unfoldable pub read_params : ℕ → Text → Message T → Parser (Message T)
  unfolding peek read_byte read_field read_quoted
  read_params zero sdid m s = err eof
  read_params (suc rounds) sdid m s =
      let again : Message T → Parser (Message T) = λ n t. read_params rounds sdid n t in
      (peek 1 >>= λ p.
      if same p (codes "]")
      then (read_byte >>= λ _. pure m)
      else ((if same p (codes " ") then (read_byte >>= λ _. pure tt) else pure tt)
          >> (read_field b'=' >>= λ name. read_byte >>= λ q.
              if q == b'"'
              then (read_quoted >>= λ val. added m (sdid ++ codes "." ++ name) val >>= again)
              else fail invalid_format)))
        s

  -- The first element of the structured data; the loop over elements is left at its end.
  unfoldable pub read_element : Message T → Parser (Message T)
  unfolding read_string slice read_params
  read_element m = read_string 32 >>= λ sdid.
      lift (slice sdid 1 (length sdid - 1)) >>= λ name. λ s. read_params (suc (length s.r)) name m s

  -- Structured data, or the `-` for none and a space.
  unfoldable pub read_structured : Message T → Parser (Message T)
  unfolding peek read_byte read_space read_element
  read_structured m = peek 1 >>= λ p.
      if same p (codes "-") then (read_byte >>= λ _. read_space >>= λ _. pure m) else read_element m

  -- The facility and the severity of a priority.
  unfoldable pub add_priority : ℤ → Message T → Parser (Message T)
  unfolding priority_names
  add_priority prio m = lift (priority_names prio) >>= λ names.
      (elim names.0 [ none ↦ pure m | some f ↦ added m (codes "facility") f ]) >>= λ m'.
      added m' (codes "severity") names.1

  abbrev pub stamped : T → Message T
  stamped ts = record {
    version = 1;
    timestamp = some ts;
    msg_type = some 0;
    attributes = [];
    session_id = none;
    tags = [];
  }

  module _ (parse_time : Text → Text → Option T) where
    -- `parse5425`
    unfoldable pub parse_5424 : ℕ → ℕ → ℤ → Parser (Message T)
    unfolding read_stamp read_space read_field read_structured read_message add_priority trim_space
    parse_5424 ready total prio = read_stamp parse_time ts_fmts >>= λ ts. read_space >>= λ _.
        read_field 32 >>= λ host. read_field 32 >>= λ tag. read_field 32 >>= λ procid.
        read_field 32 >>= λ msgid. read_structured (stamped ts) >>= λ m.
        read_message ready total >>= λ msg.
        add_priority prio (add_tag m (codes "host") host) >>= λ m1.
        added m1 (codes "tag") tag >>= λ m2. added m2 (codes "procid") procid >>= λ m3.
        added m3 (codes "msgid") msgid >>= λ m4.
        added m4 (codes "message") (without_mark (trim_space msg))
