-- ===== src/Kv/BodyRoundTrip.antt =====
-- The parts of a line behind the flags, read back.
use cypress.Base.{
  ℕ, ◌<◌, ◌≤◌, ◌≡◌, ◌≢◌, refl, sym, ap, ◌∙◌, true, false, Option, none, some, List, [], ◌∷◌, ◌++◌,
  append_assoc, ◌==◌, length, length-append, arith, Option-cases, inl, inr,
}
use cypress.Base.Text.{Text, Without}
use cypress.Base.Int.{ℤ}
use cypress.Base.Results.{ok, ◌>>=◌}
use cypress.Message.Types.{Tag, Message}
use cypress.Message.Attributes.{Value, add_all}
use cypress.Kv.Print.{quoted_text, space_before, tag_texts, kv_tags, session_text}
use cypress.Kv.Scanning.{Scan}
use cypress.Kv.Parse.{at_end, begins, read_pairs}
use cypress.Kv.Generate.{until_space, read_label, read_session, read_all_tags}
use cypress.Kv.Laws.{IsScanner}
use cypress.Kv.TagRoundTrip.{ArePrintable, read_tags_lem}
use cypress.Kv.PairRoundTrip.{all_back, Printed, pairs_blank}

-- Labels of tai64n: they begin with an at sign, hold no space, and are read back.
pub record IsLabel (T : Type 0) (label : T → Text) (parse_label : Text → Option T) : Type 0 where
  pub digits : T → Text
  pub marked : (t : T) → label t ≡ b'@' ∷ digits t
  pub unspaced : (t : T) → Without b' ' (digits t)
  pub parsed : (t : T) → parse_label (label t) ≡ some t

-- No session, or one that is not empty and has no space.
abbrev pub IsSession : Option Text → Type 0
IsSession none = Unit
IsSession (some []) = ⊥
IsSession (some (c ∷ s)) = Without b' ' (c ∷ s)

pub until_space_lem : (w t : Text) → Without b' ' w → until_space (w ++ b' ' ∷ t) ≡ ok (w, t)
unfolding until_space
until_space_lem [] t h = refl
until_space_lem (c ∷ w) t (h, hs) = rw (until_space_lem w t hs) (ground arith)

-- A message before its attributes.
abbrev pub bare_message_of : {T : Type 0} → T → ℕ → Option Text → List Tag → Message T
bare_message_of stamp t session tags = record {
  version = 1;
  timestamp = some stamp;
  msg_type = some t;
  attributes = [];
  session_id = session;
  tags = tags;
}

tag_texts-long : (tags : List Tag) → ArePrintable tags → length tags ≤ length (tag_texts tags)
unfolding tag_texts
tag_texts-long [] h = omega arith
tag_texts-long (t ∷ tags) (w, p, b, h) = elim (Option-cases t.value) [
  | inl e ↦ rw e (omega (arith, tag_texts-long tags h, length-append t.name (tag_texts tags)))
  | inr (v, e) ↦ rw e (
      omega (
        arith,
        tag_texts-long tags h,
        length-append t.name (b'=' ∷ quoted_text v ++ (space_before tags ++ tag_texts tags)),
        length-append (b'=' ∷ quoted_text v) (space_before tags ++ tag_texts tags),
        length-append (space_before tags) (tag_texts tags),
      ))
]

pub kv_tags-long : (tags : List Tag) → ArePrintable tags → length tags ≤ length (kv_tags tags)
unfolding kv_tags
kv_tags-long [] h = omega arith
kv_tags-long (t ∷ tags) h =
    omega (arith, tag_texts-long (t ∷ tags) h, length-append (tag_texts (t ∷ tags)) (b']' ∷ []))

module _ (T : Type 0) (format_float : ℕ → Text) (scan : Scan) (laws : IsScanner scan)
    (parse_int : Text → Option ℤ) (parse_float : Text → Option ℕ)
    (parse_label : Text → Option T) where
  pub stamp_lem :
      (label : T → Text) (labels : IsLabel T label parse_label) (m : Message T) (stamp : T)
      (z : Text)
      → read_label scan parse_int parse_float parse_label m (label stamp ++ b' ' ∷ z)
        ≡ ok (record m { timestamp = some stamp }, z)
  unfolding read_label
  stamp_lem label labels m stamp z =
      let p : parse_label (b'@' ∷ labels.digits stamp) ≡ some stamp =
        ap parse_label (sym (labels.marked stamp)) ∙ labels.parsed stamp in
      rw (labels.marked stamp, until_space_lem (labels.digits stamp) z (labels.unspaced stamp), p)
        refl

  pub session_lem :
      (session : Option Text) (stamp : T) (t : ℕ) (y : Text)
      → IsSession session
      → begins b'\\' y ≡ false
      → (z : Text) × (session_text session ++ b' ' ∷ y ≡ b' ' ∷ z)
        × (read_session scan parse_int parse_float parse_label (bare_message_of stamp t none []) z
            ≡ ok (bare_message_of stamp t session [], y))
  unfolding read_session
  session_lem none stamp t [] h plain = ([], refl, refl)
  session_lem none stamp t (c ∷ y) h plain = (c ∷ y, refl, rw plain refl)
  session_lem (some []) stamp t y h plain = absurd h
  session_lem (some (c ∷ s)) stamp t y h plain =
      (b'\\' ∷ c ∷ s ++ b' ' ∷ y, refl, rw (until_space_lem (c ∷ s) y h) refl)

  -- The tags and the attributes, behind the space that the loops before them take.
  pub record Body (tags : List Tag) (kvs : List (Text × Value)) (text r : Text) : Type 0 where
    pub left : Text
    pub split : text ++ r ≡ b' ' ∷ left
    pub no_session : begins b'\\' left ≡ false
    pub body_read :
        (fuel : ℕ) (stamp : T) (t : ℕ) (session : Option Text)
        → length tags < fuel
        → length kvs < fuel
        → (n : Message T) × (add_all (bare_message_of stamp t session tags) (all_back kvs) ≡ ok n)
          × ((read_all_tags scan parse_int parse_float parse_label fuel
                  (bare_message_of stamp t session [])
                  left
                >>= λ (m, u). read_pairs scan parse_int parse_float fuel m u)
              ≡ ok (n, r))

  pub body_lem :
      (tags : List Tag) (kvs : List (Text × Value))
      (p : Printed T format_float scan laws parse_int parse_float kvs) (r : Text)
      → ArePrintable tags
      → (tags ≡ [] → kvs ≢ [])
      → at_end r ≡ true
      → Body tags kvs (kv_tags tags ++ p.text) r
  unfolding kv_tags read_all_tags
  body_lem [] kvs p r h some_text e =
      let (c, y, split, letter) = p.spaced (some_text refl) in
      let no_bracket : (c == b'[') ≡ false = ground arith in
      record {
        left = c ∷ y ++ r;
        split = ap (λ x. x ++ r) split;
        no_session = ground arith;
        body_read = λ fuel stamp t session l k.
            let (n, a, b) = p.as_read fuel (bare_message_of stamp t session []) r refl e k in
            (
              n,
              a,
              rw (no_bracket) (
                  sym (
                    pairs_blank T format_float scan laws parse_int parse_float fuel
                      (bare_message_of stamp t session []) c (y ++ r) letter)
                  ∙ ap
                      (λ x.
                        read_pairs scan parse_int parse_float fuel
                          (bare_message_of stamp t session []) (x ++ r))
                      (sym split)
                  ∙ b),
            );
      }
  body_lem (tag ∷ tags) kvs p r h some_text e = record {
    left = b'[' ∷ (tag_texts (tag ∷ tags) ++ b']' ∷ []) ++ p.text ++ r;
    split = refl;
    no_session = refl;
    body_read = λ fuel stamp t session l k.
        let (n, a, b) = p.as_read fuel (bare_message_of stamp t session (tag ∷ tags)) r refl e k in
        let texts = tag_texts (tag ∷ tags) in
        let joined : (texts ++ b']' ∷ []) ++ p.text ++ r ≡ texts ++ b']' ∷ (p.text ++ r) =
          append_assoc (texts ++ b']' ∷ []) p.text r
          ∙ append_assoc texts (b']' ∷ []) (p.text ++ r) in
        (n, a, rw (joined, read_tags_lem scan laws fuel (tag ∷ tags) (p.text ++ r) l h) b);
  }
