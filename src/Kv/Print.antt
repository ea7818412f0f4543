-- ===== src/Kv/Print.antt =====
-- log.go: printing a message as a key/value line, and its tags and attributes for hstore.
use cypress.Base.{
  ℕ, ◌++◌, Option, none, some, List, [], ◌∷◌, ◌==◌, if◌then◌else◌, Bool, true, false,
}
use cypress.Base.Text.{Text, codes}
use cypress.Base.Int.{to_int64}
use cypress.Base.Decimal.{format_int}
use cypress.Base.Results.{Result, ok, err, Panic, nil_value, ◌>>=◌}
use cypress.Message.Types.{Interval, Attribute, Tag, Message}
use cypress.Message.Attributes.{string_key, or_else}
use cypress.Message.Intervals.{subsecond}

-- `strquote`
unfoldable pub strquote : Text → Text
strquote [] = []
strquote (c ∷ cs) = if c == b'"' then b'\\' ∷ b'"' ∷ strquote cs else c ∷ strquote cs

unfoldable pub quoted_text : Text → Text
unfolding strquote
quoted_text s = b'"' ∷ (strquote s ++ b'"' ∷ [])

-- `GetType`, generated: the type, or that of a log message.
abbrev pub get_type : {T : Type 0} → Message T → ℕ
get_type m = elim m.msg_type [ none ↦ 0 | some t ↦ t ]

unfoldable pub string_type : {T : Type 0} → Message T → Text
string_type m =
    let t = get_type m in
    if t == 0
    then codes "log"
    else (if t == 1
        then codes "metric"
        else (if t == 2
            then codes "trace"
            else (if t == 3
                then codes "audit"
                else (if t == 4 then codes "heartbeat" else codes "unknown"))))

unfoldable pub interval_text : Interval → Result Panic Text
unfolding format_int to_int64 subsecond
interval_text i = subsecond i.nanoseconds >>= λ fraction.
    ok (b':' ∷ (format_int (to_int64 i.seconds) ++ b'.' ∷ fraction))

abbrev pub bool_text : Bool → Text
bool_text true = codes "true"
bool_text false = codes "false"

module _ (format_float : ℕ → Text) where
  -- The switch over the fields, which stands three times in the code. Nothing is written for no value.
  unfoldable pub value_text : Attribute → Result Panic Text
  unfolding format_int quoted_text interval_text
  value_text a =
      let written : Option (Result Panic Text) =
        or_else a.ival (λ i. ok (format_int i))
          (or_else a.fval (λ f. ok (format_float f))
            (or_else a.boolval (λ b. ok (bool_text b))
              (or_else a.sval (λ s. ok (quoted_text s))
                (or_else a.bval (λ s. ok (quoted_text s)) (or_else a.tval interval_text none))))) in
      elim written [ none ↦ ok [] | some text ↦ text ]

  -- `Attribute.KVStringInto`
  unfoldable pub kv_attribute : ℕ → Attribute → Result Panic Text
  unfolding string_key value_text
  kv_attribute version a = do
    key ← string_key version a
    text ← value_text a
    ok (key ++ b'=' ∷ text)

  -- The loop of `KVPairsInto`.
  unfoldable pub kv_pairs : ℕ → List Attribute → Result Panic Text
  unfolding kv_attribute
  kv_pairs version [] = ok []
  kv_pairs version (a ∷ attrs) = do
    text ← kv_attribute version a
    rest ← kv_pairs version attrs
    ok (b' ' ∷ text ++ rest)

  -- The loop of `HstoreAttributesInto`.
  unfoldable pub hstore_attributes : ℕ → List Attribute → Result Panic Text
  unfolding string_key value_text
  hstore_attributes version [] = ok []
  hstore_attributes version (a ∷ attrs) = do
    key ← string_key version a
    text ← value_text a
    rest ← hstore_attributes version attrs
    ok (b'"' ∷ key ++ codes "\"=>" ++ text ++ comma_before attrs ++ rest)
    where
      comma_before : List Attribute → Text
      comma_before [] = []
      comma_before (b ∷ bs) = codes ", "

-- The loop of `HstoreTagsInto`.
unfoldable pub hstore_tags : List Tag → Text
unfolding strquote
hstore_tags [] = []
hstore_tags (t ∷ tags) =
    let text : Text = elim t.value [ none ↦ [] | some v ↦ strquote v ] in
    let comma : Text = elim tags [ [] ↦ [] | u ∷ us ↦ codes ", " ] in
    b'"' ∷ t.name ++ codes "\"=>\"" ++ text ++ b'"' ∷ comma ++ hstore_tags tags

abbrev pub space_before : List Tag → Text
space_before [] = []
space_before (t ∷ tags) = b' ' ∷ []

-- The loop of `KVTagsInto`: a space stands only behind a value.
unfoldable pub tag_texts : List Tag → Text
unfolding quoted_text
tag_texts [] = []
tag_texts (t ∷ tags) = elim t.value [
  | none ↦ b'!' ∷ t.name ++ tag_texts tags
  | some v ↦ t.name ++ (b'=' ∷ quoted_text v ++ (space_before tags ++ tag_texts tags))
]

unfoldable pub kv_tags : List Tag → Text
unfolding tag_texts
kv_tags [] = []
kv_tags (t ∷ tags) = b' ' ∷ b'[' ∷ (tag_texts (t ∷ tags) ++ b']' ∷ [])

abbrev pub type_flag : ℕ → Text
type_flag t =
    if t == 1
    then codes "! "
    else (if t == 2
        then codes "$ "
        else (if t == 3 then codes "* " else (if t == 4 then codes "? " else codes " ")))

-- An empty session is written like none.
abbrev pub session_text : Option Text → Text
session_text none = []
session_text (some []) = []
session_text (some (c ∷ s)) = b' ' ∷ b'\\' ∷ c ∷ s

module _ {T : Type 0} (format_float : ℕ → Text) (label : T → Text) where
  -- `Message.KVStringInto`; the label of a nil time stamp reads through it.
  unfoldable pub kv_string : Message T → Result Panic Text
  unfolding kv_tags kv_pairs
  kv_string m = do
    stamp ← elim m.timestamp [ none ↦ err nil_value | some t ↦ ok (label t) ]
    pairs ← kv_pairs format_float m.version m.attributes
    ok (
        b'>' ∷ type_flag (get_type m)
        ++ (stamp ++ (session_text m.session_id ++ (kv_tags m.tags ++ pairs))))
