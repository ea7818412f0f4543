-- ===== src/Stream/FrameRoundTrip.antt =====
-- Reading back one frame, and what a message that cannot be encoded leaves behind.
use native.Mathlib.Nat.{mod-eq_of_lt}
use cypress.Base.{
  ℕ, zero, suc, ◌+◌, ◌-◌, ◌%◌, ◌/◌, ◌^◌, ◌≤◌, ◌<◌, ◌≡◌, refl, none, some, false, List, [], ◌∷◌,
  ◌++◌, length, take, drop, ltb, length-append, append_assoc, take-append_length,
  drop-append_length, arith, if◌then◌else◌, Option-cases, inl, inr,
}
use cypress.Base.Results.{Result, ok, err}
use cypress.Message.Types.{Message}
use cypress.Varint.{put_uvarint, write_uvarint, read_uvarint}
use cypress.Varint.RoundTrip.{read_uvarint-write_uvarint}
use cypress.Codec.{MarshalError, Buffer}
use cypress.Codec.Writing.{Emits}
use cypress.Stream.Frames.{
  Payload, DecodeError, malformed, encode, read_sized, decode_native, default_message,
}

-- More room changes nothing where there was enough.
pub put_uvarint_room :
    (room more x : ℕ) (bs : List ℕ)
    → put_uvarint room x ≡ some bs
    → put_uvarint (room + more) x ≡ some bs
unfolding put_uvarint
put_uvarint_room zero more x bs e = cc
put_uvarint_room (suc room) more x bs e =
    let shift : suc room + more ≡ suc (room + more) = omega arith in
    rw shift (elim (Option-cases (put_uvarint room (x / 128))) [
      | inl over ↦ ground arith
      | inr (tail, fits) ↦ ground (arith, put_uvarint_room room more (x / 128) tail fits)
    ])

-- `MarshalTo` writes the message as these bytes, as many as `Size` gives.
pub record Encodes {M : Type 0} (p : Payload M) (m : M) (bs : List ℕ) : Type 0 where
  pub emits : Emits (p.marshal_to m) bs
  pub sized : length bs ≡ p.size m
  pub small : length bs < 2 ^ 64

-- What `Unmarshal` makes of these bytes, as the answer of a reader that goes on with `rest`.
abbrev pub reading :
    {M : Type 0} → Payload M → M → List ℕ → List ℕ → Result DecodeError (M × List ℕ)
reading p start bs rest = elim (p.unmarshal start bs) [
  | none ↦ err malformed
  | some t ↦ ok (t, rest)
]

-- The varint of a length, as the encoder writes it.
pub length_prefix :
    (n : ℕ)
    → n < 2 ^ 64
    → (ls : List ℕ) × (write_uvarint (n % 2 ^ 64) ≡ some ls)
      × (put_uvarint 127 (n % 2 ^ 64) ≡ some ls)
      × ((rest : List ℕ) → read_uvarint (ls ++ rest) ≡ ok (n, rest))
unfolding write_uvarint
length_prefix n h =
    let (ls, e, l, a, back) = read_uvarint-write_uvarint n h in
    (ls, rw (mod-eq_of_lt h) e, rw (mod-eq_of_lt h) (put_uvarint_room 10 117 n ls e), back)

module _ {M : Type 0} (p : Payload M) where
  -- The pooled buffer is large enough.
  encode_buffer :
      (m : M) (bs : List ℕ)
      → Encodes p m bs
      → (b : Buffer) × (p.marshal_to m
            (record { written = []; room = if ltb 128 (p.size m) then p.size m else 128 })
          ≡ ok b)
        × (b.written ≡ bs)
  encode_buffer m bs e =
      let start : Buffer = record {
        written = [];
        room = if ltb 128 (p.size m) then p.size m else 128;
      } in
      (
        record { written = bs; room = start.room - length bs },
        e.emits start (ground (arith, e.sized)),
        refl,
      )

  encode_step :
      (m : M) (ls : List ℕ) (b : Buffer)
      → put_uvarint 127 (p.size m % 2 ^ 64) ≡ some ls
      → p.marshal_to m
          (record { written = []; room = if ltb 128 (p.size m) then p.size m else 128 })
        ≡ ok b
      → encode p m ≡ ((b'+' ∷ ls) ++ b.written, ok ((p.size m + 5) % 2 ^ 64))
  unfolding encode
  encode_step m ls b put w = rw (put, encode) (rw w refl)

  pub encode_lem :
      (m : M) (bs : List ℕ)
      → Encodes p m bs
      → (ls : List ℕ) × (encode p m ≡ ((b'+' ∷ ls) ++ bs, ok ((length bs + 5) % 2 ^ 64)))
        × ((rest : List ℕ) → read_uvarint (ls ++ rest) ≡ ok (length bs, rest))
  encode_lem m bs e =
      let (ls, _, put, back) = length_prefix (length bs) e.small in
      let (b, w, same) = encode_buffer m bs e in
      (ls, rw (e.sized, ← same) (encode_step m ls b (rw (← e.sized) put) w), back)

  pub read_sized-encoding :
      (start : M) (ls bs rest : List ℕ)
      → read_uvarint (ls ++ (bs ++ rest)) ≡ ok (length bs, bs ++ rest)
      → read_sized p start (ls ++ (bs ++ rest)) ≡ reading p start bs rest
  unfolding read_sized
  read_sized-encoding start ls bs rest r =
      let fits : ltb (length (bs ++ rest)) (length bs) ≡ false =
        ground (arith, length-append bs rest) in
      rw (r, read_sized)
        (rw (fits, take-append_length bs rest)
          (elim (Option-cases (p.unmarshal start bs)) [
            | inl none_of_it ↦ rw (none_of_it, reading) refl
            | inr (t, some_of_it) ↦ rw (some_of_it, reading) (rw (drop-append_length bs rest) refl)
          ]))

  encode_broken :
      (m : M) (ls : List ℕ) (e : MarshalError)
      → put_uvarint 127 (p.size m % 2 ^ 64) ≡ some ls
      → p.marshal_to m
          (record { written = []; room = if ltb 128 (p.size m) then p.size m else 128 })
        ≡ err e
      → encode p m ≡ (b'+' ∷ ls, err e)
  unfolding encode
  encode_broken m ls e put w = rw (put, encode) (rw w refl)

module _ {T : Type 0} (p : Payload (Message T)) where
  -- A message that `MarshalTo` can write, as the bytes that `Size` announces, is written as one frame:
  -- `Encode` succeeds, with a count of the encoding and five bytes more. `decodeNative` of this
  -- frame with anything behind it hands exactly the bytes of `MarshalTo` to `Unmarshal`, for a message
  -- of version 1, and returns the message that comes of them and leaves the rest, or returns its error.
  pub decode_native-encode :
      (m : Message T) (bs : List ℕ)
      → Encodes p m bs
      → ((encode p m).1 ≡ ok ((length bs + 5) % 2 ^ 64))
        × ((rest : List ℕ)
            → decode_native p ((encode p m).0 ++ rest) ≡ reading p default_message bs rest)
  unfolding decode_native
  decode_native-encode m bs e =
      let (ls, w, back) = encode_lem p m bs e in
      (
        rw w refl,
        λ rest. rw w (
            rw (append_assoc ls bs rest)
              (read_sized-encoding p default_message ls bs rest (back (bs ++ rest)))),
      )

  -- A message that cannot be encoded, as one without a time stamp, leaves the head of its frame in the
  -- stream: `Encode` returns the error, but a reader takes as many bytes as the message would have had
  -- from whatever is written next, and hands them to `Unmarshal`.
  pub decode_native-encode_broken :
      (m : Message T) (e : MarshalError) (rest : List ℕ)
      → p.size m < 2 ^ 64
      → p.size m ≤ length rest
      → p.marshal_to m
          (record { written = []; room = if ltb 128 (p.size m) then p.size m else 128 })
        ≡ err e
      → ((encode p m).1 ≡ err e)
        × (decode_native p ((encode p m).0 ++ rest)
            ≡ elim (p.unmarshal default_message (take (p.size m) rest)) [
              | none ↦ err malformed
              | some t ↦ ok (t, drop (p.size m) rest)
            ])
  unfolding decode_native read_sized
  decode_native-encode_broken m e rest h l w =
      let (ls, _, put, back) = length_prefix (p.size m) h in
      let enough : ltb (length rest) (p.size m) ≡ false = ground arith in
      rw (encode_broken p m ls e put w) (refl, rw (back rest, read_sized) (rw enough refl))
