-- ===== src/Codec/Writing.antt =====
-- Writers that put certain bytes wherever there is room for them, and the primitives of the encoder.
use cypress.Base.{
  ℕ, zero, suc, ◌+◌, ◌-◌, ◌/◌, ◌%◌, ◌^◌, ◌≤◌, ◌≡◌, refl, ap, ◌∙◌, Option, none, some, List, [], ◌∷◌,
  ◌++◌, length, length-append, append_assoc, append-nil, take, leb, arith, Bool-cases, inl, inr,
}
use cypress.Base.Results.{ok, ◌>>=◌}
use cypress.Base.Bits.{set_top_bit}
use Prim.Native.Nat.{bit_or}
use cypress.Codec.{
  Buffer, Writer, put, copy, encode_varint_loop, encode_varint, encode_fixed64, sov_loop, sov,
  write_some, write_all, write_int,
}
use cypress.Codec.Wire.{groups, varint, fixed64, field_some, int_field, bytes_field, fields}

-- Where there is room for the bytes they are appended.
abbrev pub Emits : Writer → List ℕ → Type 0
Emits w bs =
    (b : Buffer)
    → length bs ≤ b.room
    → w b ≡ ok (record { written = b.written ++ bs; room = b.room - length bs })

pub Emits-then :
    (w v : Writer) (xs ys : List ℕ) → Emits w xs → Emits v ys → Emits (λ b. w b >>= v) (xs ++ ys)
Emits-then w v xs ys ew ev b h =
    let l = length-append xs ys in
    let e = ew b (omega arith) in
    let f = ev (record { written = b.written ++ xs; room = b.room - length xs }) (omega arith) in
    let r : b.room - length xs - length ys ≡ b.room - length (xs ++ ys) = omega arith in
    rw e (f ∙ rw (append_assoc b.written xs ys, r) refl)

pub Emits-nothing : Emits (λ b. ok b) []
Emits-nothing b h = ground (arith, append-nil b.written)

pub put-Emits : (c : ℕ) → Emits (put c) (c ∷ [])
unfolding put
put-Emits c b h = ground arith

pub copy-Emits : (bs : List ℕ) → Emits (copy bs) bs
unfolding copy
copy-Emits bs b h = rw (take_all bs b.room h) refl
  where
    take_all : (xs : List ℕ) (n : ℕ) → length xs ≤ n → take n xs ≡ xs
    take_all [] zero h = refl
    take_all [] (suc n) h = refl
    take_all (x ∷ xs) zero h = absurd (omega arith)
    take_all (x ∷ xs) (suc n) h = ap (λ (t : List ℕ). x ∷ t) (take_all xs n (omega arith))

group_byte : (v : ℕ) → bit_or (v % 128) 0x80 % 256 ≡ v % 128 + 128
group_byte v = omega (arith, set_top_bit (v % 128) (omega arith))

encode_varint_loop-Emits : (rounds v : ℕ) → Emits (encode_varint_loop rounds v) (groups rounds v)
unfolding encode_varint_loop groups
encode_varint_loop-Emits zero v b h = put-Emits (v % 256) b h
encode_varint_loop-Emits (suc rounds) v b h = elim (Bool-cases (leb 128 v)) [
  | inl large ↦ rw large (
      rw (group_byte v) (
        Emits-then (put (v % 128 + 128)) (encode_varint_loop rounds (v / 128)) _ _
          (put-Emits (v % 128 + 128)) (encode_varint_loop-Emits rounds (v / 128)) b
          (rw large at h)))
  | inr small ↦ rw small (put-Emits (v % 256) b (rw small at h))
]

pub encode_varint-Emits : (v : ℕ) → Emits (encode_varint v) (varint v)
unfolding encode_varint
encode_varint-Emits v = encode_varint_loop-Emits 9 v

pub encode_fixed64-Emits : (v : ℕ) → Emits (encode_fixed64 v) (fixed64 v)
unfolding encode_fixed64
encode_fixed64-Emits v =
    Emits-then _ (put (v / 2 ^ 56 % 256)) _ (v / 2 ^ 56 % 256 ∷ [])
      (Emits-then _ (put (v / 2 ^ 48 % 256)) _ (v / 2 ^ 48 % 256 ∷ [])
        (Emits-then _ (put (v / 2 ^ 40 % 256)) _ (v / 2 ^ 40 % 256 ∷ [])
          (Emits-then _ (put (v / 2 ^ 32 % 256)) _ (v / 2 ^ 32 % 256 ∷ [])
            (Emits-then _ (put (v / 2 ^ 24 % 256)) _ (v / 2 ^ 24 % 256 ∷ [])
              (Emits-then _ (put (v / 2 ^ 16 % 256)) _ (v / 2 ^ 16 % 256 ∷ [])
                (Emits-then _ (put (v / 2 ^ 8 % 256)) _ (v / 2 ^ 8 % 256 ∷ []) (put-Emits (v % 256))
                  (put-Emits (v / 2 ^ 8 % 256)))
                (put-Emits (v / 2 ^ 16 % 256)))
              (put-Emits (v / 2 ^ 24 % 256)))
            (put-Emits (v / 2 ^ 32 % 256)))
          (put-Emits (v / 2 ^ 40 % 256)))
        (put-Emits (v / 2 ^ 48 % 256)))
      (put-Emits (v / 2 ^ 56 % 256))

sov_loop-length : (rounds v n : ℕ) → sov_loop (suc rounds) v n ≡ n + length (groups rounds v)
unfolding sov_loop groups
sov_loop-length zero v n = ground arith
sov_loop-length (suc rounds) v n = ground (arith, sov_loop-length rounds (v / 128) (n + 1))

-- `sovLog` counts the bytes of `encodeVarintLog`.
pub sov-length : (v : ℕ) → sov v ≡ length (varint v)
unfolding sov
sov-length v = omega (arith, sov_loop-length 9 v 0)

pub Emits-some :
    {A : Type 0} (w : A → Writer) (f : A → List ℕ)
    → ((a : A) → Emits (w a) (f a))
    → (o : Option A) → Emits (write_some w o) (field_some f o)
Emits-some w f e none = Emits-nothing
Emits-some w f e (some a) = e a

-- A tag, a length, and a writer of as many bytes.
pub Emits-sized :
    (tag : ℕ) (w : Writer) (bs : List ℕ)
    → Emits w bs
    → Emits (λ b. put tag b >>= encode_varint (length bs % 2 ^ 64) >>= w) (bytes_field tag bs)
Emits-sized tag w bs e =
    Emits-then (λ b. put tag b >>= encode_varint (length bs % 2 ^ 64)) w
      (tag ∷ varint (length bs % 2 ^ 64)) bs
      (Emits-then (put tag) (encode_varint (length bs % 2 ^ 64)) (tag ∷ []) _ (put-Emits tag)
        (encode_varint-Emits _))
      e

pub Emits-all :
    {A : Type 0} (tag : ℕ) (size : A → ℕ) (w : A → Writer) (f : A → List ℕ)
    → ((a : A) → Emits (w a) (f a))
    → ((a : A) → length (f a) ≡ size a)
    → (xs : List A) → Emits (write_all tag size w xs) (fields tag f xs)
Emits-all tag size w f e l [] = Emits-nothing
Emits-all tag size w f e l (a ∷ rest) = rw (← l a) (
    Emits-then (λ b. put tag b >>= encode_varint (length (f a) % 2 ^ 64) >>= w a)
      (write_all tag size w rest) (bytes_field tag (f a)) (fields tag f rest)
      (Emits-sized tag (w a) (f a) (e a)) (Emits-all tag size w f e l rest))

pub write_int-Emits : (tag v : ℕ) → Emits (write_int tag v) (int_field tag v)
write_int-Emits tag v =
    Emits-then (put tag) (encode_varint v) (tag ∷ []) (varint v) (put-Emits tag)
      (encode_varint-Emits v)
