-- ===== src/Kv/RoundTrip.antt =====
-- A message printed as a line and parsed again.
use cypress.Base.{
  ℕ, zero, suc, ◌^◌, ◌<◌, ◌≡◌, ◌≢◌, refl, ap, ◌∙◌, Bool, true, Option, none, some, List, [], ◌∷◌,
  ◌++◌, append_assoc, length, length-append, arith,
}
use cypress.Base.Text.{Text}
use cypress.Base.Int.{ℤ, pos}
use cypress.Base.Decimal.{decimal}
use cypress.Base.Results.{ok, ◌>>=◌}
use cypress.Message.Types.{Tag, Message}
use cypress.Message.Attributes.{Value, add_all}
use cypress.Kv.Print.{kv_tags, type_flag, session_text, kv_string}
use cypress.Kv.Scanning.{Scan}
use cypress.Kv.Parse.{at_end, read_pairs}
use cypress.Kv.Generate.{
  read_label, read_session, read_all_tags, read_entry, new_log, find_start, generate_within,
  generate,
}
use cypress.Kv.Laws.{IsScanner}
use cypress.Kv.TagRoundTrip.{ArePrintable}
use cypress.Kv.PairRoundTrip.{all_back, AreWritable, printed_lem}
use cypress.Kv.BodyRoundTrip.{
  IsLabel, IsSession, bare_message_of, kv_tags-long, stamp_lem, session_lem, body_lem,
}

module _ (T : Type 0) (scan : Scan) (parse_int : Text → Option ℤ) (parse_float : Text → Option ℕ)
    (parse_label : Text → Option T) where
  -- `read_entry` when its flag and all its parts are known.
  message_lem :
      (fuel t : ℕ) (now : T) (v a b : Text) (m1 m2 n : Message T) (r : Text)
      → t < 5
      → read_label scan parse_int parse_float parse_label (new_log now t) v ≡ ok (m1, a)
      → read_session scan parse_int parse_float parse_label m1 a ≡ ok (m2, b)
      → (read_all_tags scan parse_int parse_float parse_label fuel m2 b >>= λ (m, u).
          read_pairs scan parse_int parse_float fuel m u)
        ≡ ok (n, r)
      → read_entry scan parse_int parse_float parse_label fuel now (type_flag t ++ v) ≡ ok (n, r)
  unfolding read_entry
  message_lem fuel zero now v a b m1 m2 n r l x y z = rw (x, y) z
  message_lem fuel (suc zero) now v a b m1 m2 n r l x y z = rw (x, y) z
  message_lem fuel (suc (suc zero)) now v a b m1 m2 n r l x y z = rw (x, y) z
  message_lem fuel (suc (suc (suc zero))) now v a b m1 m2 n r l x y z = rw (x, y) z
  message_lem fuel (suc (suc (suc (suc zero)))) now v a b m1 m2 n r l x y z = rw (x, y) z
  message_lem fuel (suc (suc (suc (suc (suc t))))) now v a b m1 m2 n r l x y z =
      absurd (omega (arith, l))

  generate_lem :
      (bare : Bool) (now : T) (u : Text) (n : Message T) (r : Text)
      → read_entry scan parse_int parse_float parse_label (suc (length (b'>' ∷ u))) now u
        ≡ ok (n, r)
      → generate scan parse_int parse_float parse_label bare now (b'>' ∷ u) ≡ ok (n, r)
  unfolding generate generate_within find_start
  generate_lem bare now u n r e = rw (generate, generate_within, e) refl

  module _ (format_float : ℕ → Text) (label : T → Text) (laws : IsScanner scan)
      (labels : IsLabel T label parse_label) where
    -- The text of a line with what follows it, as the parts that the parser takes.
    line_split :
        (stamp : T) (flag session body r left z : Text)
        → body ++ r ≡ b' ' ∷ left
        → session ++ b' ' ∷ left ≡ b' ' ∷ z
        → (flag ++ (label stamp ++ (session ++ body))) ++ r ≡ flag ++ (label stamp ++ b' ' ∷ z)
    line_split stamp flag session body r left z a b =
        append_assoc flag (label stamp ++ (session ++ body)) r
        ∙ ap (λ x. flag ++ x)
            (append_assoc (label stamp) (session ++ body) r
              ∙ ap (λ x. label stamp ++ x)
                  (append_assoc session body r ∙ ap (λ x. session ++ x) a ∙ b))

    -- With a scanner that finds words, numbers and plain strings, labels without a space that are read back, and decimal ints
    -- that are read back: take a message of version 1 of one of the five types, with at least one tag or
    -- attribute. Its session is missing or has no space and is not empty; its tags have words for names and plain
    -- values, those without a value last; its attributes were added under words, with values that are
    -- no negative ints, no floats, plain texts, and intervals with a part of a second. Its line, at
    -- the end of the input or in front of a newline, is parsed into the message with the same
    -- attributes, but that bytes and bools come back as text.
    pub kv_round_trip :
        ((n : ℕ) → n < 2 ^ 63 → parse_int (decimal n) ≡ some (pos n))
        → (bare : Bool) (now stamp : T) (t : ℕ) (session : Option Text) (tags : List Tag)
          (kvs : List (Text × Value)) (r : Text)
        → t < 5
        → IsSession session
        → ArePrintable tags
        → AreWritable kvs
        → (tags ≡ [] → kvs ≢ [])
        → at_end r ≡ true
        → (m n : Message T) × (line : Text) × (add_all (bare_message_of stamp t session tags) kvs
            ≡ ok m)
          × (kv_string format_float label m ≡ ok line)
          × (add_all (bare_message_of stamp t session tags) (all_back kvs) ≡ ok n)
          × (generate scan parse_int parse_float parse_label bare now (line ++ r) ≡ ok (n, r))
    unfolding kv_string
    kv_round_trip ints bare now stamp t session tags kvs r small s h w some_text e =
        let p = printed_lem T format_float scan laws parse_int parse_float ints kvs w in
        let base = bare_message_of stamp t session tags in
        let body =
          body_lem T format_float scan laws parse_int parse_float parse_label tags kvs p r h
            some_text e in
        let (z, sessioned, session_read) =
          session_lem T format_float scan laws parse_int parse_float parse_label session stamp t
            body.left s body.no_session in
        let texts = kv_tags tags ++ p.text in
        let line : Text = b'>' ∷ type_flag t ++ (label stamp ++ (session_text session ++ texts)) in
        let u : Text = type_flag t ++ (label stamp ++ b' ' ∷ z) in
        let joined : line ++ r ≡ b'>' ∷ u =
          line_split stamp (b'>' ∷ type_flag t) (session_text session) texts r body.left z
            body.split sessioned in
        let sizes : (length tags < suc (suc (length u))) × (length kvs < suc (suc (length u))) =
          ground (
            arith,
            ap length joined,
            length-append line r,
            length-append (b'>' ∷ type_flag t) (label stamp ++ (session_text session ++ texts)),
            length-append (label stamp) (session_text session ++ texts),
            length-append (session_text session) texts,
            length-append (kv_tags tags) p.text,
            p.long,
            kv_tags-long tags h,
          ) in
        let (n, all_added, all_read) =
          body.body_read (suc (suc (length u))) stamp t session sizes.0 sizes.1 in
        (
          record base { attributes = p.attrs },
          n,
          line,
          p.as_added base refl,
          rw p.as_printed refl,
          all_added,
          rw joined (
              generate_lem bare now u n r (
                message_lem (suc (suc (length u))) t now (label stamp ++ b' ' ∷ z) z body.left
                  (bare_message_of stamp t none []) (bare_message_of stamp t session []) n r small
                  (stamp_lem T format_float scan laws parse_int parse_float parse_label label labels
                    (new_log now t) stamp z)
                  session_read all_read)),
        )
