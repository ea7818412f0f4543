-- ===== src/Varint/Bounds.antt =====
-- What a successful read can be, on any input.
use Prim.Native.Nat.{bit_and, bit_or}
use native.Mathlib.Nat.{pow-le-pow_right}
use cypress.Base.{
  ℕ, ◌+◌, ◌*◌, ◌%◌, ◌^◌, ◌≤◌, ◌<◌, ◌≡◌, ◌≢◌, List, [], ◌∷◌, arith, length, All, dec_lt, lt→ltb,
}
use cypress.Base.Results.{ok}
use cypress.Base.Bits.{low_bits}
use cypress.Varint.{shift_left, read_uvarint_loop, read_uvarint}
use cypress.Varint.RoundTrip.{or_group, group_fits}

-- Past the tenth byte nothing is accepted.
loop_past_ten :
    (src : List ℕ) (i acc s : ℕ) (p : ℕ × List ℕ) → 9 < i → read_uvarint_loop src i acc s ≢ ok p
unfolding read_uvarint_loop
loop_past_ten [] i acc s p h e = cc
loop_past_ten (b ∷ rest) i acc s p h e =
    ground
      (arith, loop_past_ten rest (i + 1) (bit_or acc (shift_left (bit_and b 0x7f) s)) (s + 7) p)

word_bound :
    (v s acc i : ℕ) → s ≡ 7 * i → i < 9 → acc + v * 2 ^ s < 2 ^ (s + 7) → acc + v * 2 ^ s < 2 ^ 64
word_bound v s acc i hs hi h = omega (arith, pow-le-pow_right {n = 2} (omega arith) le63)
  where
    le63 : s + 7 ≤ 63
    le63 = omega arith

top_bound : (v s acc i : ℕ) → s ≡ 7 * i → i ≡ 9 → acc < 2 ^ s → v < 2 → acc + v * 2 ^ s < 2 ^ 64
top_bound v s acc i hs hi ha hv =
    let e : s ≡ 63 = omega arith in let ha' = rw e at ha in rw e (omega (arith, ha'))

loop_bounds :
    (src : List ℕ) (i acc s v : ℕ) (rest : List ℕ)
    → All (λ b. b < 256) src
    → s ≡ 7 * i
    → i < 10
    → acc < 2 ^ s
    → read_uvarint_loop src i acc s ≡ ok (v, rest)
    → (v < 2 ^ 64) × (length rest < length src) × (length src + i ≤ length rest + 10)
unfolding read_uvarint_loop
loop_bounds [] i acc s v rest ab hs hi ha e = cc
loop_bounds (b ∷ src) i acc s v rest (hb, ab) hs hi ha e = elim (dec_lt b 128) [
  | yes small ↦ ground (
    arith,
    lt→ltb b 128 small,
    group_fits b s acc small ha,
    word_bound b s acc i hs,
    top_bound b s acc i hs,
    or_group s acc b ha,
  )
  | no large ↦ elim (dec_lt i 9) [
    | yes early ↦
        let hv : b % 128 < 128 = omega arith in
        let fits = group_fits (b % 128) s acc hv ha in
        ground (
          arith,
          low_bits b,
          fits,
          or_group s acc (b % 128) ha (word_bound (b % 128) s acc i hs early fits),
          loop_bounds src (i + 1) (acc + b % 128 * 2 ^ s) (s + 7) v rest,
        )
    | no late ↦ ground (
      arith,
      loop_past_ten src (i + 1) (bit_or acc (shift_left (bit_and b 0x7f) s)) (s + 7) (v, rest),
    )
  ]
]

-- From a stream of bytes `ReadUvarint` returns only 64-bit values, and takes one byte at least
-- and ten at most.
read_uvarint_bounds :
    (src : List ℕ) (v : ℕ) (rest : List ℕ)
    → All (λ b. b < 256) src
    → read_uvarint src ≡ ok (v, rest)
    → (v < 2 ^ 64) × (length rest < length src) × (length src ≤ length rest + 10)
unfolding read_uvarint
read_uvarint_bounds src v rest ab e = ground (arith, loop_bounds src 0 0 0 v rest ab)
