-- ===== src/Kv/PairRoundTrip.antt =====
-- The attributes of a line read back.
use cypress.Base.{
  ℕ, zero, suc, ◌^◌, ◌<◌, ◌≤◌, ◌≡◌, ◌≢◌, refl, sym, ap, ◌∙◌, true, false, Option, none, some, List,
  [], ◌∷◌, ◌++◌, append_assoc, append-nil, ◌==◌, length, length-append, arith, inl,
}
use cypress.Base.Text.{Text}
use cypress.Base.Int.{ℤ, pos}
use cypress.Base.Decimal.{decimal}
use cypress.Base.Results.{ok, ◌>>=◌}
use cypress.Message.Types.{Attribute, Message}
use cypress.Message.Attributes.{Value, string_key, empty_attribute, add_attr, add_value, add_all}
use cypress.Message.Attributes.Lookup.{
  fill_with, string_key-fill_with, add_value-fill_with, string_key-set_key,
}
use cypress.Kv.Print.{kv_attribute, kv_pairs}
use cypress.Kv.Scanning.{Scan}
use cypress.Kv.Parse.{lift, read_pair, read_pairs, at_end}
use cypress.Kv.Laws.{IsWord, is_letter, ends_value, IsScanner}
use cypress.Kv.ValueRoundTrip.{IsWritable, read_back, WrittenAs, ReadsAs, value_lem}

-- In a message of version 1 an attribute goes to the end, whatever stands before it.
added_attribute :
    (T : Type 0) (key : Text) (v : Value)
    → (a : Attribute) × (string_key 1 a ≡ ok key)
      × (record a { key = 0; skey = none } ≡ empty_attribute)
      × ((m : Message T)
          → m.version ≡ 1
          → add_value m key v ≡ ok (record m { attributes = m.attributes ++ fill_with v a ∷ [] }))
unfolding add_attr
added_attribute T key v =
    let (a, e, k, blank) = string_key-set_key 1 key (omega arith) in
    (a, k, blank, λ m h. add_value-fill_with m key v ∙ rw (add_attr, h, e))

abbrev pub AreWritable : List (Text × Value) → Type 0
AreWritable [] = Unit
AreWritable ((key, v) ∷ kvs) = IsWord key × IsWritable v × AreWritable kvs

abbrev pub all_back : List (Text × Value) → List (Text × Value)
all_back [] = []
all_back ((key, v) ∷ kvs) = (key, read_back v) ∷ all_back kvs

word_head : (w : Text) → IsWord w → (c : ℕ) × (cs : Text) × (w ≡ c ∷ cs) × (is_letter c ≡ true)
word_head [] h = absurd h
word_head (c ∷ cs) (h, hs) = (c, cs, refl, h)

ends_value_at : (t : Text) → at_end t ≡ true → ends_value t ≡ true
ends_value_at [] e = refl
ends_value_at (c ∷ cs) e = ground arith

module _ (T : Type 0) (format_float : ℕ → Text) (scan : Scan) (laws : IsScanner scan)
    (parse_int : Text → Option ℤ) (parse_float : Text → Option ℕ) where
  read_pair_lem :
      (fuel : ℕ) (m : Message T) (key text t : Text) (v : Value)
      → IsWord key
      → ends_value t ≡ true
      → ReadsAs T scan laws parse_int parse_float text v
      → read_pair scan parse_int parse_float (suc fuel) m (b' ' ∷ (key ++ b'=' ∷ text) ++ t)
        ≡ (lift (add_value m key v) >>= λ n. ok (n, t))
  unfolding read_pair
  read_pair_lem fuel m key text t v w e reads =
      rw
        (
          laws.blank ((key ++ b'=' ∷ text) ++ t),
          append_assoc key (b'=' ∷ text) t,
          laws.word key (b'=' ∷ text ++ t) w refl,
          laws.mark b'=' (text ++ t) (inl refl),
        )
        (reads (suc fuel) m key t e)

  abbrev AsRead : List (Text × Value) → Text → Type 0
  AsRead kvs text =
      (fuel : ℕ) (m : Message T) (t : Text)
      → m.version ≡ 1
      → at_end t ≡ true
      → length kvs < fuel
      → (n : Message T) × (add_all m (all_back kvs) ≡ ok n)
        × (read_pairs scan parse_int parse_float fuel m (text ++ t) ≡ ok (n, t))

  -- Attributes with their text, which is read back as attributes of the types that the text shows.
  pub record Printed (kvs : List (Text × Value)) : Type 0 where
    pub attrs : List Attribute
    pub text : Text
    pub as_added :
        (m : Message T)
        → m.version ≡ 1
        → add_all m kvs ≡ ok (record m { attributes = m.attributes ++ attrs })
    pub as_printed : kv_pairs format_float 1 attrs ≡ ok text
    pub long : length kvs ≤ length text
    pub separate : (t : Text) → at_end t ≡ true → ends_value (text ++ t) ≡ true
    pub as_read : AsRead kvs text
    pub spaced : kvs ≢ [] → (c : ℕ) × (y : Text) × (text ≡ b' ' ∷ c ∷ y) × (is_letter c ≡ true)

  read_none :
      (fuel : ℕ) (m : Message T) (t : Text)
      → at_end t ≡ true
      → 0 < fuel
      → read_pairs scan parse_int parse_float fuel m t ≡ ok (m, t)
  unfolding read_pairs
  read_none zero m t e l = absurd (omega (arith, l))
  read_none (suc fuel) m t e l = rw e refl

  -- One more round of the loop.
  read_pairs_on :
      (fuel : ℕ) (m n : Message T) (t u : Text) (r : Message T × Text)
      → at_end t ≡ false
      → read_pair scan parse_int parse_float fuel m t ≡ ok (n, u)
      → read_pairs scan parse_int parse_float fuel n u ≡ ok r
      → read_pairs scan parse_int parse_float (suc fuel) m t ≡ ok r
  unfolding read_pairs
  read_pairs_on fuel m n t u r e a b = rw (e, a) b

  pair_blank :
      (fuel : ℕ) (m : Message T) (t : Text)
      → read_pair scan parse_int parse_float fuel m (b' ' ∷ t)
        ≡ read_pair scan parse_int parse_float fuel m t
  unfolding read_pair
  pair_blank fuel m t = rw (laws.blank t) refl

  -- A space in front of an attribute may be gone.
  pub pairs_blank :
      (fuel : ℕ) (m : Message T) (c : ℕ) (t : Text)
      → is_letter c ≡ true
      → read_pairs scan parse_int parse_float fuel m (b' ' ∷ c ∷ t)
        ≡ read_pairs scan parse_int parse_float fuel m (c ∷ t)
  unfolding read_pairs
  pairs_blank zero m c t l = refl
  pairs_blank (suc fuel) m c t l =
      let going : (c == 10) ≡ false = ground arith in rw (pair_blank fuel m (c ∷ t), going) refl

  no_attributes : Printed []
  unfolding add_all kv_pairs read_pairs
  no_attributes = record {
    attrs = [];
    text = [];
    as_added =
        λ m h. ap (λ as_. ok (record m { attributes = as_ })) (sym (append-nil m.attributes));
    as_printed = refl;
    long = omega arith;
    separate = ends_value_at;
    as_read = λ fuel m t h e l. (m, refl, read_none fuel m t e l);
    spaced = λ some_kvs. absurd (some_kvs refl);
  }

  more_read :
      (key : Text) (v : Value) (kvs : List (Text × Value)) (b : Attribute) (text : Text)
      → IsWord key
      → ((m : Message T)
          → m.version ≡ 1
          → add_value m key (read_back v)
            ≡ ok (record m { attributes = m.attributes ++ fill_with (read_back v) b ∷ [] }))
      → ReadsAs T scan laws parse_int parse_float text (read_back v)
      → (rest : Printed kvs) → AsRead ((key, v) ∷ kvs) (b' ' ∷ (key ++ b'=' ∷ text) ++ rest.text)
  unfolding add_all
  more_read key v kvs b text w add reads rest zero m t h e l = absurd (omega (arith, l))
  more_read key v kvs b text w add reads rest (suc zero) m t h e l = absurd (omega (arith, l))
  more_read key v kvs b text w add reads rest (suc (suc fuel)) m t h e l =
      let n = record m { attributes = m.attributes ++ fill_with (read_back v) b ∷ [] } in
      let (o, all_added, all_read) = rest.as_read (suc fuel) n t h e (omega arith) in
      (
        o,
        rw (add m h, all_added) refl,
        rw (append_assoc (b' ' ∷ (key ++ b'=' ∷ text)) rest.text t) (
            read_pairs_on (suc fuel) m n (b' ' ∷ (key ++ b'=' ∷ text) ++ (rest.text ++ t))
              (rest.text ++ t) (o, t) refl
              (read_pair_lem fuel m key text (rest.text ++ t) (read_back v) w (rest.separate t e)
                  reads
                ∙ rw (add m h) refl)
              all_read),
      )

  more_attributes :
      (key : Text) (v : Value) (kvs : List (Text × Value))
      → IsWord key
      → (text : Text) × WrittenAs format_float v text
        × ReadsAs T scan laws parse_int parse_float text (read_back v)
      → Printed kvs
      → Printed ((key, v) ∷ kvs)
  unfolding add_all kv_pairs kv_attribute
  more_attributes key v kvs w (text, written, reads) rest =
      let (a, k, blank, add) = added_attribute T key v in
      let (b, k', blank', add') = added_attribute T key (read_back v) in
      record {
        attrs = fill_with v a ∷ rest.attrs;
        text = b' ' ∷ (key ++ b'=' ∷ text) ++ rest.text;
        as_added = λ m h.
            rw
              (
                add m h,
                rest.as_added (record m { attributes = m.attributes ++ fill_with v a ∷ [] }) h,
              )
              (ap (λ as_. ok (record m { attributes = as_ }))
                (append_assoc m.attributes (fill_with v a ∷ []) rest.attrs));
        as_printed = rw (string_key-fill_with 1 v a, k, written a blank, rest.as_printed) refl;
        long = omega (arith, rest.long, length-append (b' ' ∷ (key ++ b'=' ∷ text)) rest.text);
        separate = λ t e. refl;
        as_read = more_read key v kvs b text w add' reads rest;
        spaced = λ _.
            let (c, cs, e, l) = word_head key w in
            (
              c,
              (cs ++ b'=' ∷ text) ++ rest.text,
              ap (λ x. b' ' ∷ (x ++ b'=' ∷ text) ++ rest.text) e,
              l,
            );
      }

  pub printed_lem :
      ((n : ℕ) → n < 2 ^ 63 → parse_int (decimal n) ≡ some (pos n))
      → (kvs : List (Text × Value)) → AreWritable kvs
      → Printed kvs
  printed_lem ints [] h = no_attributes
  printed_lem ints ((key, v) ∷ kvs) (w, x, h) =
      more_attributes key v kvs w
        (value_lem T format_float scan laws parse_int parse_float ints v x) (printed_lem ints kvs h)
