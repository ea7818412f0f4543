-- ===== src/Codec/Marshal.antt =====
-- `Marshal` against the wire format.
use cypress.Base.{
  ℕ, ◌+◌, ◌%◌, ◌^◌, ◌≤◌, ◌≡◌, refl, ap, ◌∙◌, Bool, Option, none, some, List, [], ◌∷◌, ◌++◌, length,
  length-append, arith, if◌then◌else◌,
}
use cypress.Base.Int.{to_uint64}
use cypress.Base.Text.{Text, codes}
use cypress.Base.Results.{ok, err, ◌>>=◌}
use cypress.Message.Types.{Interval, Attribute, Tag, Message}
use cypress.Codec.{
  required_not_set, Buffer, Writer, put, copy, encode_varint, encode_fixed64, sov, soz, zig_zag,
  widen, sized, size_some, write_some, write_int, write_bytes, interval_size, interval_marshal_to,
  attribute_size, attribute_marshal_to, tag_size, tag_marshal_to, StampCodec, size_all, write_all,
  message_size, message_marshal_to, message_marshal,
}
use cypress.Codec.Wire.{
  varint, int_field, bytes_field, field_some, fields, fixed64, interval_bytes, attribute_bytes,
  tag_bytes, message_bytes,
}
use cypress.Codec.Writing.{
  Emits, Emits-then, put-Emits, copy-Emits, encode_fixed64-Emits, sov-length, Emits-some,
  write_int-Emits, Emits-sized, Emits-all,
}

-- The length of eight parts in a row, and of six.
eight-length :
    (a b c d e f g h : List ℕ)
    → length (((((((a ++ b) ++ c) ++ d) ++ e) ++ f) ++ g) ++ h)
      ≡ length a + length b + length c + length d + length e + length f + length g + length h
eight-length a b c d e f g h = simp length-append refl

six-length :
    (a b c d e f : List ℕ)
    → length (((((a ++ b) ++ c) ++ d) ++ e) ++ f)
      ≡ length a + length b + length c + length d + length e + length f
six-length a b c d e f = simp length-append refl

interval-length : (m : Interval) → length (interval_bytes m) ≡ interval_size m
unfolding interval_size
interval-length m = omega (
  arith,
  length-append (int_field 0x8 m.seconds) (int_field 0x10 m.nanoseconds),
  sov-length m.seconds,
  sov-length m.nanoseconds,
)

interval-Emits : (m : Interval) → Emits (interval_marshal_to m) (interval_bytes m)
unfolding interval_marshal_to
interval-Emits m =
    Emits-then (write_int 0x8 m.seconds) (write_int 0x10 m.nanoseconds) (int_field 0x8 m.seconds)
      (int_field 0x10 m.nanoseconds) (write_int-Emits _ _) (write_int-Emits _ _)

write_bytes-Emits : (tag : ℕ) (bs : Text) → Emits (write_bytes tag bs) (bytes_field tag bs)
write_bytes-Emits tag bs = Emits-sized tag (copy bs) bs (copy-Emits bs)

sized-length : (tag : ℕ) (bs : List ℕ) → length (bytes_field tag bs) ≡ sized (length bs)
sized-length tag bs =
    omega (arith, length-append (varint (length bs % 2 ^ 64)) bs, sov-length (length bs % 2 ^ 64))

some-length :
    {A : Type 0} (f : A → List ℕ) (size : A → ℕ)
    → ((a : A) → length (f a) ≡ size a)
    → (o : Option A) → length (field_some f o) ≡ size_some size o
some-length f size e none = refl
some-length f size e (some a) = e a

all-length :
    {A : Type 0} (tag : ℕ) (f : A → List ℕ) (size : A → ℕ)
    → ((a : A) → length (f a) ≡ size a)
    → (xs : List A) → length (fields tag f xs) ≡ size_all size xs
all-length tag f size e [] = refl
all-length tag f size e (a ∷ rest) = rw (← e a) (
    length-append (bytes_field tag (f a)) (fields tag f rest)
    ∙ rw (sized-length tag (f a), all-length tag f size e rest) refl)

tag-length : (m : Tag) → length (tag_bytes m) ≡ tag_size m
unfolding tag_size
tag-length m = omega (
  arith,
  length-append (bytes_field 0xa m.name) (field_some (bytes_field 0x12) m.value),
  sized-length 0xa m.name,
  some-length (bytes_field 0x12) (λ s. sized (length s)) (sized-length 0x12) m.value,
)

tag-Emits : (m : Tag) → Emits (tag_marshal_to m) (tag_bytes m)
unfolding tag_marshal_to
tag-Emits m =
    Emits-then (write_bytes 0xa m.name) (write_some (write_bytes 0x12) m.value) _ _
      (write_bytes-Emits 0xa m.name)
      (Emits-some (write_bytes 0x12) (bytes_field 0x12) (write_bytes-Emits 0x12) m.value)

texts-length :
    (tag : ℕ) (o : Option Text)
    → length (field_some (bytes_field tag) o) ≡ size_some (λ s. sized (length s)) o
texts-length tag = some-length (bytes_field tag) (λ s. sized (length s)) (sized-length tag)

texts-Emits :
    (tag : ℕ) (o : Option Text)
    → Emits (write_some (write_bytes tag) o) (field_some (bytes_field tag) o)
texts-Emits tag = Emits-some (write_bytes tag) (bytes_field tag) (write_bytes-Emits tag)

attribute-length : (m : Attribute) → length (attribute_bytes m) ≡ attribute_size m
unfolding attribute_size soz
attribute-length m =
    let number : length (field_some (λ v. int_field 0x18 (zig_zag (to_uint64 v))) m.ival)
        ≡ size_some (λ v. 1 + sov (zig_zag (to_uint64 v))) m.ival =
      some-length _ _ (λ v. omega (arith, sov-length (zig_zag (to_uint64 v)))) m.ival in
    let time : length (field_some (λ t. bytes_field 0x32 (interval_bytes t)) m.tval)
        ≡ size_some (λ t. sized (interval_size t)) m.tval =
      some-length _ _ (λ t. sized-length 0x32 (interval_bytes t) ∙ rw (interval-length t) refl)
        m.tval in
    let truth : length (field_some {A = Bool} (λ v. 0x38 ∷ (if v then 1 else 0) ∷ []) m.boolval)
        ≡ size_some (λ v. 2) m.boolval =
      some-length _ _ (λ v. refl) m.boolval in
    let float : length (field_some (λ v. 0x41 ∷ fixed64 v) m.fval) ≡ size_some (λ v. 9) m.fval =
      some-length _ _ (λ v. refl) m.fval in
    let key : length (int_field 0x8 m.key) ≡ 1 + sov m.key = omega (arith, sov-length m.key) in
    eight-length (int_field 0x8 m.key) _ _ _ _ _ _ _
    ∙ rw
        (
          key,
          number,
          time,
          truth,
          float,
          texts-length 0x12 m.skey,
          texts-length 0x22 m.sval,
          texts-length 0x2a m.bval,
        )
        refl

abbrev nested : Interval → Writer
nested t c = put 0x32 c >>= encode_varint (interval_size t % 2 ^ 64) >>= interval_marshal_to t

nested-Emits : (t : Interval) → Emits (nested t) (bytes_field 0x32 (interval_bytes t))
nested-Emits t =
    rw (← interval-length t)
      (Emits-sized 0x32 (interval_marshal_to t) (interval_bytes t) (interval-Emits t))

abbrev truth : Bool → Writer
truth v c = put 0x38 c >>= put (if v then 1 else 0)

truth-Emits : (v : Bool) → Emits (truth v) (0x38 ∷ (if v then 1 else 0) ∷ [])
truth-Emits v =
    Emits-then (put 0x38) (put (if v then 1 else 0)) (0x38 ∷ []) _ (put-Emits 0x38) (put-Emits _)

abbrev float : ℕ → Writer
float v c = put 0x41 c >>= encode_fixed64 v

float-Emits : (v : ℕ) → Emits (float v) (0x41 ∷ fixed64 v)
float-Emits v =
    Emits-then (put 0x41) (encode_fixed64 v) (0x41 ∷ []) (fixed64 v) (put-Emits 0x41)
      (encode_fixed64-Emits v)

attribute-Emits : (m : Attribute) → Emits (attribute_marshal_to m) (attribute_bytes m)
unfolding attribute_marshal_to
attribute-Emits m =
    let ek = write_int-Emits 0x8 m.key in
    let e1 =
      Emits-then (write_int 0x8 m.key) (write_some (write_bytes 0x12) m.skey) _ _ ek
        (texts-Emits 0x12 m.skey) in
    let e2 = Emits-then _ (write_some (λ v. write_int 0x18 (zig_zag (to_uint64 v))) m.ival) _ _ e1 (
      Emits-some _ (λ v. int_field 0x18 (zig_zag (to_uint64 v))) (λ v. write_int-Emits 0x18 _)
        m.ival) in
    let e3 = Emits-then _ (write_some (write_bytes 0x22) m.sval) _ _ e2 (texts-Emits 0x22 m.sval) in
    let e4 = Emits-then _ (write_some (write_bytes 0x2a) m.bval) _ _ e3 (texts-Emits 0x2a m.bval) in
    let e5 =
      Emits-then _ (write_some nested m.tval) _ _ e4
        (Emits-some nested (λ t. bytes_field 0x32 (interval_bytes t)) nested-Emits m.tval) in
    let e6 =
      Emits-then _ (write_some truth m.boolval) _ _ e5
        (Emits-some truth (λ v. 0x38 ∷ (if v then 1 else 0) ∷ []) truth-Emits m.boolval) in
    Emits-then _ (write_some float m.fval) _ _ e6
      (Emits-some float (λ v. 0x41 ∷ fixed64 v) float-Emits m.fval)

module _ {T : Type 0} (c : StampCodec T) (stamp : T → List ℕ)
    (stamp_length : (t : T) → length (stamp t) ≡ c.size t)
    (stamp_Emits : (t : T) → Emits (c.marshal_to t) (stamp t)) where
  time_length : (t : T) → length (bytes_field 0xa (stamp t)) ≡ sized (c.size t)
  time_length t = sized-length 0xa (stamp t) ∙ ap (λ (n : ℕ). sized n) (stamp_length t)

  stamp_field :
      (t : T)
      → Emits
          (λ b. put 0xa b >>= encode_varint (c.size t % 2 ^ 64) >>= c.marshal_to t)
          (bytes_field 0xa (stamp t))
  stamp_field t = rw (← stamp_length t) (Emits-sized 0xa (c.marshal_to t) (stamp t) (stamp_Emits t))

  time_fits : (m : Message T) (t : T) → m.timestamp ≡ some t → sized (c.size t) ≤ message_size c m
  unfolding message_size
  time_fits m t et =
      let e : size_some (λ t. sized (c.size t)) m.timestamp ≡ sized (c.size t) = rw et refl in
      omega (arith, e)

  missing_type_to :
      (m : Message T) (t : T) (b : Buffer)
      → m.timestamp ≡ some t
      → m.msg_type ≡ none
      → sized (c.size t) ≤ b.room
      → message_marshal_to c m b ≡ err (required_not_set (codes "type"))
  unfolding message_marshal_to
  missing_type_to m t b et ev h =
      rw (et, ev) (rw (stamp_field t b (omega (arith, time_length t))) refl)

  missing_type :
      (m : Message T) (t : T)
      → m.timestamp ≡ some t
      → m.msg_type ≡ none
      → message_marshal c m ≡ err (required_not_set (codes "type"))
  unfolding message_marshal
  missing_type m t et ev =
      let start : Buffer = record { written = []; room = message_size c m } in
      rw (missing_type_to m t start et ev (time_fits m t et)) refl

  pub message-length :
      (m : Message T) (t : T) (v : ℕ)
      → m.timestamp ≡ some t
      → m.msg_type ≡ some v
      → length (message_bytes stamp t v m) ≡ message_size c m
  unfolding message_size
  message-length m t v et ev =
      let time = time_length t in
      let attributes =
        all-length 0x1a attribute_bytes attribute_size attribute-length m.attributes in
      let tags = all-length 0x2a tag_bytes tag_size tag-length m.tags in
      rw (et, ev)
        (six-length (bytes_field 0xa (stamp t)) (int_field 0x10 v) _ _ _ _
          ∙ rw (time, attributes, tags, texts-length 0x22 m.session_id)
              (omega (arith, sov-length v, sov-length (widen m.version))))

  pub message-Emits :
      (m : Message T) (t : T) (v : ℕ)
      → m.timestamp ≡ some t
      → m.msg_type ≡ some v
      → Emits (message_marshal_to c m) (message_bytes stamp t v m)
  unfolding message_marshal_to
  message-Emits m t v et ev =
      rw (et, ev)
        (let e1 = Emits-then _ (write_int 0x10 v) _ _ (stamp_field t) (write_int-Emits 0x10 v) in
          let e2 =
            Emits-then _ (write_all 0x1a attribute_size attribute_marshal_to m.attributes) _ _ e1 (
              Emits-all 0x1a attribute_size attribute_marshal_to attribute_bytes attribute-Emits
                attribute-length m.attributes) in
          let e3 =
            Emits-then _ (write_some (write_bytes 0x22) m.session_id) _ _ e2
              (texts-Emits 0x22 m.session_id) in
          let e4 =
            Emits-then _ (write_all 0x2a tag_size tag_marshal_to m.tags) _ _ e3
              (Emits-all 0x2a tag_size tag_marshal_to tag_bytes tag-Emits tag-length m.tags) in
          Emits-then _ (write_int 0x30 (widen m.version)) _ _ e4
            (write_int-Emits 0x30 (widen m.version)))

  -- `Marshal` of a message that has a time stamp and a type succeeds: it fills a buffer of exactly the
  -- size that `Size` gives, and the bytes are the fields of the message in the wire format. Without a
  -- time stamp, or with one and no type, it returns the error that names what is missing. The methods
  -- of the time stamp write the bytes that their size announces.
  pub message_marshal-message_bytes :
      (m : Message T)
      → ((t : T) (v : ℕ)
          → m.timestamp ≡ some t
          → m.msg_type ≡ some v
          → (message_marshal c m ≡ ok (message_bytes stamp t v m))
            × (length (message_bytes stamp t v m) ≡ message_size c m))
        × (m.timestamp ≡ none → message_marshal c m ≡ err (required_not_set (codes "timestamp")))
        × ((t : T)
            → m.timestamp ≡ some t
            → m.msg_type ≡ none
            → message_marshal c m ≡ err (required_not_set (codes "type")))
  unfolding message_marshal
  message_marshal-message_bytes m = (
    λ t v et ev.
        let l = message-length m t v et ev in
        (
          rw
              (message-Emits m t v et ev (record { written = []; room = message_size c m })
                (omega (arith, l)))
              refl,
          l,
        ),
    λ e. unfold message_marshal_to in rw e refl,
    λ t et ev. missing_type m t et ev,
  )
