-- ===== src/Kv/Generate.antt =====
-- kv.go: from the start of a message to its end, and `Generate`.
use cypress.Base.{
  ℕ, zero, suc, ◌++◌, Bool, Option, none, some, [], ◌∷◌, ◌==◌, length, if◌then◌else◌,
}
use cypress.Base.Text.{Text, codes}
use cypress.Base.Int.{ℤ}
use cypress.Base.Results.{Result, ok, err, ◌>>=◌}
use cypress.Message.Types.{Message}
use cypress.Message.Attributes.{add_string}
use cypress.Kv.Scanning.{Scan}
use cypress.Kv.Parse.{Stop, again, ended, endless, spent, panicked, lift, read_tags, read_pairs}

-- A loop of `Next` up to a space, and the text behind it. At the end of the input `Next` goes on to
-- give EOF, which is written to the buffer, and the loop has no other way out: it never ends, for which
-- the value `endless` stands.
unfoldable pub until_space : Text → Result Stop (Text × Text)
until_space [] = err endless
until_space (c ∷ cs) =
    let rest = until_space cs in
    if c == b' ' then ok ([], cs) else (rest >>= λ (w, t). ok (c ∷ w, t))

-- `skipToStart`: the text behind a `>` at the start of a line, or none at the end of the input.
unfoldable pub skip_to_start : Text → Option Text
skip_to_start [] = none
skip_to_start (c ∷ cs) =
    let rest = skip_to_start cs in
    if c == 10 then elim cs [ [] ↦ none | d ∷ ds ↦ if d == b'>' then some ds else rest ] else rest

-- The loop of `readBare`, with the buffer: the first line that is not empty.
unfoldable pub bare_line : Text → Text → Option (Text × Text)
bare_line [] [] = none
bare_line (b ∷ bs) [] = some (b ∷ bs, [])
bare_line [] (c ∷ cs) =
    let blank = bare_line [] cs in
    let more = bare_line (c ∷ []) cs in if c == 10 then blank else more
bare_line (b ∷ bs) (c ∷ cs) =
    let more = bare_line (b ∷ bs ++ c ∷ []) cs in if c == 10 then some (b ∷ bs, cs) else more

-- The type that a flag stands for, and the text behind it.
abbrev pub read_flag : ℕ → Text → ℕ × Text
read_flag c cs =
    if c == b'!'
    then (1, cs)
    else (if c == b'$'
        then (2, cs)
        else (if c == b'*' then (3, cs) else (if c == b'?' then (4, cs) else (0, c ∷ cs))))

-- `Log`, at a time, with a type.
abbrev pub new_log : {T : Type 0} → T → ℕ → Message T
new_log now t = record {
  version = 1;
  timestamp = some now;
  msg_type = some t;
  attributes = [];
  session_id = none;
  tags = [];
}

-- The text behind the `>` of the next message; or what `readBare` makes of a line without one.
pub data Start : Type 0 where
  message_at : Text → Start
  bare_message : Text → Text → Start
  no_more : Start

unfoldable pub find_start : Bool → Text → Start
unfolding skip_to_start bare_line
find_start bare [] = no_more
find_start bare (c ∷ cs) =
    if c == b'>'
    then message_at cs
    else (if bare
        then elim (bare_line [] (c ∷ cs)) [ none ↦ no_more | some (line, t) ↦ bare_message line t ]
        else elim (skip_to_start (c ∷ cs)) [ none ↦ no_more | some t ↦ message_at t ])

-- What the scanner finds, the numbers as Go's library reads them, and the labels of tai64n.
module _ {T : Type 0} (scan : Scan) (parse_int : Text → Option ℤ) (parse_float : Text → Option ℕ)
    (parse_label : Text → Option T) where
  unfoldable pub read_label : Message T → Text → Result Stop (Message T × Text)
  unfolding until_space
  read_label m [] = ok (m, [])
  read_label m (c ∷ t) =
      if c == b'@'
      then (until_space t >>= λ (w, u). ok (
        elim (parse_label (b'@' ∷ w)) [
          | none ↦ m
          | some stamp ↦ record m { timestamp = some stamp }
        ],
        u,
      ))
      else ok (m, c ∷ t)

  unfoldable pub read_session : Message T → Text → Result Stop (Message T × Text)
  unfolding until_space
  read_session m [] = ok (m, [])
  read_session m (c ∷ t) =
      if c == b'\\'
      then (until_space t >>= λ (w, u). ok (record m { session_id = some w }, u))
      else ok (m, c ∷ t)

  unfoldable pub read_all_tags : ℕ → Message T → Text → Result Stop (Message T × Text)
  unfolding read_tags
  read_all_tags fuel m [] = ok (m, [])
  read_all_tags fuel m (c ∷ t) =
      if c == b'['
      then (read_tags scan fuel t >>= λ (tags, u). ok (record m { tags = tags }, u))
      else ok (m, c ∷ t)

  -- What stands behind the space after the flag.
  unfoldable pub read_body : ℕ → T → ℕ → Text → Result Stop (Message T × Text)
  unfolding read_label read_session read_all_tags read_pairs
  read_body fuel now t v = do
    (m, a) ← read_label (new_log now t) v
    (m, b) ← read_session m a
    (m, d) ← read_all_tags fuel m b
    read_pairs scan parse_int parse_float fuel m d

  -- A text that ends before the space begins again at its end.
  unfoldable pub after_flag : ℕ → T → ℕ → Text → Result Stop (Message T × Text)
  unfolding read_body
  after_flag fuel now t [] = err (again [])
  after_flag fuel now t (d ∷ v) = if d == b' ' then read_body fuel now t v else err (again v)

  -- From the `>` of a message on.
  unfoldable pub read_entry : ℕ → T → Text → Result Stop (Message T × Text)
  unfolding after_flag
  read_entry fuel now [] = err ended
  read_entry fuel now (c ∷ cs) = let (t, u) = read_flag c cs in after_flag fuel now t u

  -- `Generate`, a round for each time that it begins again.
  unfoldable pub generate_within : ℕ → ℕ → Bool → T → Text → Result Stop (Message T × Text)
  unfolding find_start read_entry
  generate_within zero fuel bare now t = err spent
  generate_within (suc rounds) fuel bare now t = elim (find_start bare t) [
    | no_more ↦ err ended
    | bare_message line u ↦
        lift (add_string (new_log now 0) (codes "message") line) >>= λ m. ok (m, u)
    | message_at u ↦ elim (read_entry fuel now u) [
      | ok r ↦ ok r
      | err (again v) ↦ generate_within rounds fuel bare now v
      | err ended ↦ err ended
      | err endless ↦ err endless
      | err spent ↦ err spent
      | err (panicked p) ↦ err (panicked p)
    ]
  ]

  -- Every round of every loop takes a character, or is the last.
  unfoldable pub generate : Bool → T → Text → Result Stop (Message T × Text)
  unfolding generate_within
  generate bare now t = generate_within (suc (length t)) (suc (length t)) bare now t
