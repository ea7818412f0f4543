-- ===== src/Codec/Wire.antt =====
-- The wire format that an encoding is to have: fields in the order of the code, each a tag and its
-- value.
use cypress.Base.{
  ℕ, zero, suc, ◌+◌, ◌/◌, ◌%◌, ◌^◌, Option, none, some, List, [], ◌∷◌, ◌++◌, length, leb,
  if◌then◌else◌,
}
use cypress.Base.Int.{to_uint64}
use cypress.Message.Types.{Interval, Attribute, Tag, Message}
use cypress.Codec.{zig_zag, widen}

-- Seven bits a byte, lowest first, with the top bit where more follows, in at most `rounds` such bytes.
unfoldable pub groups : ℕ → ℕ → List ℕ
groups zero v = v % 256 ∷ []
groups (suc rounds) v =
    let rest = groups rounds (v / 128) in if leb 128 v then (v % 128 + 128) ∷ rest else v % 256 ∷ []

abbrev pub varint : ℕ → List ℕ
varint v = groups 9 v

-- Eight bytes, lowest first.
abbrev pub fixed64 : ℕ → List ℕ
fixed64 v =
    v % 256
    ∷ v / 2 ^ 8 % 256
    ∷ v / 2 ^ 16 % 256
    ∷ v / 2 ^ 24 % 256
    ∷ v / 2 ^ 32 % 256
    ∷ v / 2 ^ 40 % 256
    ∷ v / 2 ^ 48 % 256
    ∷ v / 2 ^ 56 % 256
    ∷ []

abbrev pub int_field : ℕ → ℕ → List ℕ
int_field tag v = tag ∷ varint v

abbrev pub bytes_field : ℕ → List ℕ → List ℕ
bytes_field tag bs = tag ∷ varint (length bs % 2 ^ 64) ++ bs

abbrev pub field_some : {A : Type 0} → (A → List ℕ) → Option A → List ℕ
field_some f none = []
field_some f (some a) = f a

abbrev pub fields : {A : Type 0} → ℕ → (A → List ℕ) → List A → List ℕ
fields tag f [] = []
fields tag f (a ∷ rest) = bytes_field tag (f a) ++ fields tag f rest

abbrev pub interval_bytes : Interval → List ℕ
interval_bytes m = int_field 0x8 m.seconds ++ int_field 0x10 m.nanoseconds

abbrev pub attribute_bytes : Attribute → List ℕ
attribute_bytes m =
    ((((((int_field 0x8 m.key ++ field_some (bytes_field 0x12) m.skey)
              ++ field_some (λ v. int_field 0x18 (zig_zag (to_uint64 v))) m.ival)
            ++ field_some (bytes_field 0x22) m.sval)
          ++ field_some (bytes_field 0x2a) m.bval)
        ++ field_some (λ t. bytes_field 0x32 (interval_bytes t)) m.tval)
      ++ field_some (λ v. 0x38 ∷ (if v then 1 else 0) ∷ []) m.boolval)
    ++ field_some (λ v. 0x41 ∷ fixed64 v) m.fval

abbrev pub tag_bytes : Tag → List ℕ
tag_bytes m = bytes_field 0xa m.name ++ field_some (bytes_field 0x12) m.value

-- With the encoding of a time stamp given.
abbrev pub message_bytes : {T : Type 0} → (T → List ℕ) → T → ℕ → Message T → List ℕ
message_bytes stamp t v m =
    ((((bytes_field 0xa (stamp t) ++ int_field 0x10 v) ++ fields 0x1a attribute_bytes m.attributes)
        ++ field_some (bytes_field 0x22) m.session_id)
      ++ fields 0x2a tag_bytes m.tags)
    ++ int_field 0x30 (widen m.version)
