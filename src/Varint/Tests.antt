-- ===== src/Varint/Tests.antt =====
-- Runs of varint.go.
use cypress.Base.{ℕ, ◌<◌, ◌≤◌, ◌^◌, ◌≡◌, refl, some, List, [], ◌∷◌, ◌++◌, length, arith, All, ◌-◌}
use cypress.Base.Results.{ok, err}
use cypress.Varint.{overflow, write_uvarint, read_uvarint, read_uvarint_loop, put_uvarint}
use cypress.Varint.RoundTrip.{read_uvarint-write_uvarint}

-- 300 in two bytes.
abbrev three_hundred : List ℕ
three_hundred = 0xac ∷ 0x02 ∷ []

write_three_hundred : write_uvarint 300 ≡ some three_hundred
unfolding write_uvarint put_uvarint
write_three_hundred = refl

-- Ten bytes whose last one is too large.
too_large :
    read_uvarint (0xff ∷ 0xff ∷ 0xff ∷ 0xff ∷ 0xff ∷ 0xff ∷ 0xff ∷ 0xff ∷ 0xff ∷ 0x02 ∷ [])
    ≡ err overflow
unfolding read_uvarint read_uvarint_loop
too_large = refl

read_uvarint-write_uvarint_example :
    (bs : List ℕ) × (write_uvarint (2 ^ 64 - 1) ≡ some bs)
    × (length bs ≤ 10)
    × All (λ b. b < 256) bs
    × ((rest : List ℕ) → read_uvarint (bs ++ rest) ≡ ok (2 ^ 64 - 1, rest))
read_uvarint-write_uvarint_example = read_uvarint-write_uvarint (2 ^ 64 - 1) (omega arith)
