-- ===== src/Codec/Varints.antt =====
-- The encoder's varints and those of varint.go.
use cypress.Base.{
  ℕ, zero, suc, ◌+◌, ◌*◌, ◌/◌, ◌%◌, ◌^◌, ◌≤◌, ◌<◌, ◌≡◌, refl, true, false, some, List, [], ◌∷◌,
  ◌++◌, length, arith, leb, Bool-cases, inl, inr, ◌-◌,
}
use cypress.Base.Bits.{set_top_bit}
use cypress.Base.Results.{ok}
use cypress.Varint.{put_uvarint, write_uvarint}
use cypress.Codec.{Buffer, encode_varint, sov}
use cypress.Codec.Wire.{groups, varint}
use cypress.Codec.Writing.{encode_varint-Emits, sov-length}

put_more :
    (room v : ℕ) (bs : List ℕ)
    → leb 128 v ≡ true
    → put_uvarint room (v / 128) ≡ some bs
    → put_uvarint (suc room) v ≡ some ((v % 128 + 128) ∷ bs)
unfolding put_uvarint
put_more room v bs large e = ground (arith, set_top_bit (v % 256))

put_last : (room v : ℕ) → leb 128 v ≡ false → put_uvarint (suc room) v ≡ some (v % 256 ∷ [])
unfolding put_uvarint
put_last room v small = rw small refl

power_step : (n : ℕ) → 128 ^ suc n ≡ 128 * 128 ^ n
power_step n = omega arith

put_uvarint-groups :
    (rounds v : ℕ) → v < 128 ^ suc rounds → put_uvarint (suc rounds) v ≡ some (groups rounds v)
unfolding groups
put_uvarint-groups zero v h = put_last zero v (ground arith)
put_uvarint-groups (suc rounds) v h = elim (Bool-cases (leb 128 v)) [
  | inl large ↦ rw large (
      put_more (suc rounds) v (groups rounds (v / 128)) large
        (put_uvarint-groups rounds (v / 128) (omega (arith, power_step (suc rounds)))))
  | inr small ↦ rw small (put_last (suc rounds) v small)
]

-- The two writers of varints agree: for a uint64 `encodeVarintLog` appends the bytes that
-- `WriteUvarint` writes, wherever there is room for them, and `sovLog` is their number.
pub encode_varint-write_uvarint :
    (v : ℕ) (b : Buffer)
    → v < 2 ^ 64
    → (bs : List ℕ) × (write_uvarint v ≡ some bs)
      × (sov v ≡ length bs)
      × (length bs ≤ b.room
          → encode_varint v b
            ≡ ok (record { written = b.written ++ bs; room = b.room - length bs }))
unfolding write_uvarint
encode_varint-write_uvarint v b h =
    (varint v, put_uvarint-groups 9 v (omega arith), sov-length v, encode_varint-Emits v b)
