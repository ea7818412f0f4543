-- ===== src/Varint/RoundTrip.antt =====
-- Reading back what `WriteUvarint` wrote.
use Prim.Native.Nat.{bit_or}
use native.Mathlib.Nat.{div-add-mod, mod-eq_of_lt}
use native.Mathlib.Numerals.{towards_suc}
use cypress.Base.{
  ℕ, zero, suc, true, false, ◌+◌, ◌*◌, ◌/◌, ◌%◌, ◌^◌, ◌≤◌, ◌<◌, ◌≡◌, refl, ap, List, [], ◌∷◌, ◌++◌,
  some, arith, length, All, Bool-cases, leb, inl, inr,
}
use cypress.Base.Results.{ok}
use cypress.Base.Bits.{bit_or_disjoint, low_bits, set_top_bit}
use cypress.Varint.{shift_left, put_uvarint, write_uvarint, read_uvarint_loop, read_uvarint}

pub shift_seven : (s : ℕ) → 2 ^ (s + 7) ≡ 128 * 2 ^ s
shift_seven s = simp towards_suc (omega arith)

-- The lowest group of `x` and the rest, both shifted by `s`.
split_group : (x s : ℕ) → x * 2 ^ s ≡ x % 128 * 2 ^ s + x / 128 * 2 ^ (s + 7)
split_group x s = omega (
  arith,
  ap (λ (t : ℕ). t * 2 ^ s) (div-add-mod x 128),
  ap (λ (t : ℕ). x / 128 * t) (shift_seven s),
)

-- `|=` with a group that fits is addition.
pub or_group :
    (s acc v : ℕ)
    → acc < 2 ^ s
    → acc + v * 2 ^ s < 2 ^ 64
    → bit_or acc (shift_left v s) ≡ acc + v * 2 ^ s
or_group s acc v h fits =
    let e : shift_left v s ≡ v * 2 ^ s = mod-eq_of_lt (omega arith) in
    rw e (bit_or_disjoint s acc v h)

small_top : (v i s acc : ℕ) → s ≡ 7 * i → i ≡ 9 → acc + v * 2 ^ s < 2 ^ 64 → v < 2
small_top v i s acc hs hi fits =
    let e : s ≡ 63 = omega arith in let fits' = rw e at fits in omega (arith, fits')

last_byte :
    (v i s acc : ℕ) (rest : List ℕ)
    → v < 128
    → s ≡ 7 * i
    → i < 10
    → acc < 2 ^ s
    → acc + v * 2 ^ s < 2 ^ 64
    → read_uvarint_loop (v ∷ rest) i acc s ≡ ok (acc + v * 2 ^ s, rest)
unfolding read_uvarint_loop
last_byte v i s acc rest hv hs hi ha fits =
    ground (arith, or_group s acc v ha fits, small_top v i s acc hs)

inner_byte :
    (v i s acc : ℕ) (rest : List ℕ)
    → v < 128
    → acc < 2 ^ s
    → acc + v * 2 ^ s < 2 ^ 64
    → read_uvarint_loop ((v + 128) ∷ rest) i acc s
      ≡ read_uvarint_loop rest (i + 1) (acc + v * 2 ^ s) (s + 7)
unfolding read_uvarint_loop
inner_byte v i s acc rest hv ha fits =
    let e : (v + 128) % 128 ≡ v = omega arith in
    ground (arith, or_group s acc v ha fits, low_bits (v + 128), e)

pub group_fits : (v s acc : ℕ) → v < 128 → acc < 2 ^ s → acc + v * 2 ^ s < 2 ^ (s + 7)
group_fits v s acc hv h =
    let g : v * 2 ^ s ≤ 127 * 2 ^ s = grind arith in omega (arith, g, shift_seven s)

-- What an encoding of `x` in at most `room` bytes promises a reader that stands at byte `i`.
abbrev ReadsBack : ℕ → ℕ → ℕ → ℕ → ℕ → Type 0
ReadsBack room x i s acc =
    (bs : List ℕ) × (put_uvarint room x ≡ some bs)
    × (length bs ≤ room)
    × All (λ b. b < 256) bs
    × ((rest : List ℕ) → read_uvarint_loop (bs ++ rest) i acc s ≡ ok (acc + x * 2 ^ s, rest))

module _ (room x i s acc : ℕ) (hs : s ≡ 7 * i) (hi : i + suc room ≡ 10) (ha : acc < 2 ^ s)
    (fits : acc + x * 2 ^ s < 2 ^ 64) where
  last_step : leb 128 x ≡ false → ReadsBack (suc room) x i s acc
  unfolding put_uvarint
  last_step small = (
    (x % 256) ∷ [],
    rw small,
    omega arith,
    omega arith,
    λ rest.
        let e : x % 256 ≡ x = ground arith in
        rw e (last_byte x i s acc rest (ground arith) hs (omega arith) ha fits),
  )

  inner_step :
      leb 128 x ≡ true
      → ReadsBack room (x / 128) (i + 1) (s + 7) (acc + x % 128 * 2 ^ s)
      → ReadsBack (suc room) x i s acc
  unfolding put_uvarint
  inner_step large (bs, e, l, a, back) = (
    (x % 128 + 128) ∷ bs,
    ground (arith, set_top_bit (x % 256)),
    omega arith,
    (omega arith, a),
    λ rest. ground (arith, inner_byte (x % 128) i s acc (bs ++ rest), back rest, split_group x s),
  )

-- At the tenth byte at most one bit is left, so the buffer has room for every step.
put_ReadsBack :
    (room x i s acc : ℕ)
    → s ≡ 7 * i
    → i + suc room ≡ 10
    → acc < 2 ^ s
    → acc + x * 2 ^ s < 2 ^ 64
    → ReadsBack (suc room) x i s acc
put_ReadsBack zero x i s acc hs hi ha fits =
    last_step zero x i s acc hs hi ha fits
      (ground (arith, small_top x i s acc hs (omega arith) fits))
put_ReadsBack (suc room) x i s acc hs hi ha fits = elim (Bool-cases (leb 128 x)) [
  | inl large ↦ inner_step (suc room) x i s acc hs hi ha fits large (
      put_ReadsBack room (x / 128) (i + 1) (s + 7) (acc + x % 128 * 2 ^ s) (omega arith)
        (omega arith) (group_fits (x % 128) s acc (omega arith) ha)
        (omega (arith, split_group x s)))
  | inr small ↦ last_step (suc room) x i s acc hs hi ha fits small
]

-- Every 64-bit value is written without running over the ten-byte buffer, as at most ten bytes,
-- and `ReadUvarint` on these bytes with anything behind them returns the value and leaves the rest.
pub read_uvarint-write_uvarint :
    (x : ℕ)
    → x < 2 ^ 64
    → (bs : List ℕ) × (write_uvarint x ≡ some bs)
      × (length bs ≤ 10)
      × All (λ b. b < 256) bs
      × ((rest : List ℕ) → read_uvarint (bs ++ rest) ≡ ok (x, rest))
unfolding write_uvarint read_uvarint
read_uvarint-write_uvarint x h =
    let (bs, e, l, a, back) = put_ReadsBack 9 x 0 0 0 refl refl (omega arith) (omega arith) in
    (bs, e, l, a, λ rest. let e : 0 + x * 2 ^ 0 ≡ x = omega arith in rw e at (back rest))
