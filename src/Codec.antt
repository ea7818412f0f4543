-- ===== src/Codec.antt =====
-- log.pb.go: the size of a message and its encoding. A `Buffer` is the slice `data` with the index `i`:
-- what is written so far, and how many bytes are left. The fields that no decoder has left
-- unrecognized are all there is (`XXX_unrecognized` is nil).
pub mod Wire
pub mod Writing
pub mod Varints
pub mod Marshal
pub mod Tests
use Prim.Native.Nat.{bit_or}
use cypress.Base.{
  ℕ, zero, suc, ◌+◌, ◌-◌, ◌*◌, ◌/◌, ◌%◌, ◌^◌, Bool, true, false, Option, none, some, List, [], ◌∷◌,
  ◌++◌, length, take, ltb, leb, ◌==◌, if◌then◌else◌,
}
use cypress.Base.Int.{ℤ, to_uint64}
use cypress.Base.Text.{Text, codes}
use cypress.Base.Results.{Result, ok, err, ◌>>=◌}
use cypress.Message.Types.{Interval, Attribute, Tag, Message}

-- An index out of range, and the error of `NewRequiredNotSetError`.
pub data MarshalError : Type 0 where
  out_of_range : MarshalError
  required_not_set : Text → MarshalError

pub record Buffer : Type 0 where
  pub written : List ℕ
  pub room : ℕ

abbrev pub Writer : Type 0
Writer = Buffer → Result MarshalError Buffer

-- `data[i] = c; i++`
pub put : ℕ → Writer
put c b = elim b.room [
  | zero ↦ err out_of_range
  | suc r ↦ ok (record { written = b.written ++ c ∷ []; room = r })
]

-- `i += copy(data[i:], bs)`
pub copy : List ℕ → Writer
copy bs b = ok (record { written = b.written ++ take b.room bs; room = b.room - length bs })

-- `encodeVarintLog`: the ten bytes of a uint64 take nine rounds of its loop. The mask `v&0x7f` is the
-- remainder by 128.
pub encode_varint_loop : ℕ → ℕ → Writer
unfolding put
encode_varint_loop zero v b = put (v % 256) b
encode_varint_loop (suc rounds) v b =
    if leb 128 v
    then (put (bit_or (v % 128) 0x80 % 256) b >>= λ c. encode_varint_loop rounds (v / 128) c)
    else put (v % 256) b

pub encode_varint : ℕ → Writer
unfolding encode_varint_loop
encode_varint v b = encode_varint_loop 9 v b

-- `encodeFixed64Log`
pub encode_fixed64 : ℕ → Writer
unfolding put
encode_fixed64 v b =
    put (v % 256) b
    >>= put (v / 2 ^ 8 % 256)
    >>= put (v / 2 ^ 16 % 256)
    >>= put (v / 2 ^ 24 % 256)
    >>= put (v / 2 ^ 32 % 256)
    >>= put (v / 2 ^ 40 % 256)
    >>= put (v / 2 ^ 48 % 256)
    >>= put (v / 2 ^ 56 % 256)

-- `sovLog`
pub sov_loop : ℕ → ℕ → ℕ → ℕ
sov_loop zero x n = n
sov_loop (suc rounds) x n =
    let rest = sov_loop rounds (x / 128) (n + 1) in if x / 128 == 0 then n + 1 else rest

pub sov : ℕ → ℕ
unfolding sov_loop
sov x = sov_loop 10 x 0

-- `(x << 1) ^ uint64(int64(x) >> 63)` of a 64-bit word: the mask is 0 or all ones.
pub zig_zag : ℕ → ℕ
zig_zag x = if ltb x (2 ^ 63) then x * 2 % 2 ^ 64 else 2 ^ 64 - 1 - x * 2 % 2 ^ 64

pub soz : ℕ → ℕ
unfolding sov zig_zag
soz x = sov (zig_zag x)

-- `uint64(v)` of the bit pattern of an int32.
unfoldable pub widen : ℕ → ℕ
widen v = if ltb v (2 ^ 31) then v else v + (2 ^ 64 - 2 ^ 32)

-- `1 + l + sovLog(uint64(l))`
abbrev pub sized : ℕ → ℕ
sized l = 1 + l + sov (l % 2 ^ 64)

-- What a part that may be nil adds to a size, and what it writes.
abbrev pub size_some : {A : Type 0} → (A → ℕ) → Option A → ℕ
size_some f none = 0
size_some f (some a) = f a

abbrev pub write_some : {A : Type 0} → (A → Writer) → Option A → Writer
write_some f none b = ok b
write_some f (some a) b = f a b

-- A tag and a number behind it; a tag, a length and as many bytes.
abbrev pub write_int : ℕ → ℕ → Writer
write_int tag v b = put tag b >>= encode_varint v

abbrev pub write_bytes : ℕ → Text → Writer
write_bytes tag bs b = put tag b >>= encode_varint (length bs % 2 ^ 64) >>= copy bs

pub interval_size : Interval → ℕ
unfolding sov
interval_size m = 1 + sov m.seconds + (1 + sov m.nanoseconds)

pub interval_marshal_to : Interval → Writer
unfolding put encode_varint
interval_marshal_to m b = write_int 0x8 m.seconds b >>= write_int 0x10 m.nanoseconds

pub attribute_size : Attribute → ℕ
unfolding sov soz interval_size
attribute_size m =
    1
    + sov m.key
    + size_some (λ s. sized (length s)) m.skey
    + size_some (λ v. 1 + soz (to_uint64 v)) m.ival
    + size_some (λ s. sized (length s)) m.sval
    + size_some (λ s. sized (length s)) m.bval
    + size_some (λ t. sized (interval_size t)) m.tval
    + size_some (λ v. 2) m.boolval
    + size_some (λ v. 9) m.fval

pub attribute_marshal_to : Attribute → Writer
unfolding put encode_varint copy interval_marshal_to interval_size zig_zag encode_fixed64
attribute_marshal_to m b =
    write_int 0x8 m.key b
    >>= write_some (write_bytes 0x12) m.skey
    >>= write_some (λ v. write_int 0x18 (zig_zag (to_uint64 v))) m.ival
    >>= write_some (write_bytes 0x22) m.sval
    >>= write_some (write_bytes 0x2a) m.bval
    >>= write_some
        (λ t c. put 0x32 c >>= encode_varint (interval_size t % 2 ^ 64) >>= interval_marshal_to t)
        m.tval
    >>= write_some (λ v c. put 0x38 c >>= put (if v then 1 else 0)) m.boolval
    >>= write_some (λ v c. put 0x41 c >>= encode_fixed64 v) m.fval

pub tag_size : Tag → ℕ
unfolding sov
tag_size m = sized (length m.name) + size_some (λ s. sized (length s)) m.value

pub tag_marshal_to : Tag → Writer
unfolding put encode_varint copy
tag_marshal_to m b = write_bytes 0xa m.name b >>= write_some (write_bytes 0x12) m.value

-- The methods `Size` and `MarshalTo` of the time stamp, of package tai64n outside the repository.
pub record StampCodec (T : Type 0) : Type 0 where
  pub size : T → ℕ
  pub marshal_to : T → Writer

-- The loops over attributes and tags.
abbrev pub size_all : {A : Type 0} → (A → ℕ) → List A → ℕ
size_all f [] = 0
size_all f (a ∷ rest) = sized (f a) + size_all f rest

abbrev pub write_all : {A : Type 0} → ℕ → (A → ℕ) → (A → Writer) → List A → Writer
write_all tag f w [] b = ok b
write_all tag f w (a ∷ rest) b =
    put tag b >>= encode_varint (f a % 2 ^ 64) >>= w a >>= write_all tag f w rest

module _ {T : Type 0} (c : StampCodec T) where
  pub message_size : Message T → ℕ
  unfolding sov widen attribute_size tag_size
  message_size m =
      1
      + sov (widen m.version)
      + size_some (λ t. sized (c.size t)) m.timestamp
      + size_some (λ v. 1 + sov v) m.msg_type
      + size_all attribute_size m.attributes
      + size_some (λ s. sized (length s)) m.session_id
      + size_all tag_size m.tags

  pub message_marshal_to : Message T → Writer
  unfolding put encode_varint copy widen attribute_size attribute_marshal_to tag_size tag_marshal_to
  message_marshal_to m b =
      (elim m.timestamp [
        | none ↦ err (required_not_set (codes "timestamp"))
        | some t ↦ put 0xa b >>= encode_varint (c.size t % 2 ^ 64) >>= c.marshal_to t
      ])
      >>= (λ b. elim m.msg_type [
        | none ↦ err (required_not_set (codes "type"))
        | some v ↦ write_int 0x10 v b
      ])
      >>= write_all 0x1a attribute_size attribute_marshal_to m.attributes
      >>= write_some (write_bytes 0x22) m.session_id
      >>= write_all 0x2a tag_size tag_marshal_to m.tags
      >>= write_int 0x30 (widen m.version)

  -- `Marshal`: a buffer of the size that `Size` gives, and what was written of it.
  pub message_marshal : Message T → Result MarshalError (List ℕ)
  unfolding message_size message_marshal_to
  message_marshal m =
      message_marshal_to m (record { written = []; room = message_size m }) >>= λ b. ok b.written
