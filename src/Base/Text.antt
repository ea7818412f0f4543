-- ===== src/Base/Text.antt =====
-- A Go string or byte slice is the list of its bytes.
use Prim.Native.Char.{code}
use Prim.Native.String.{String}
use Prim.Native.Nat.{ℕ}
use mathlib.Core.Path.{◌≡◌, refl}
use mathlib.Core.Logic.{◌↔◌}
use mathlib.Core.Bool.{Bool, true, false, ◌&&◌, not}
use mathlib.Core.List.{List, [], ◌∷◌}
use native.Mathlib.Omega.{arith}
use cypress.Base.Tests.{◌==◌}
use cypress.Base.Lists.{All}

abbrev pub Text : Type 0
Text = List ℕ

-- The bytes of an ASCII literal.
abbrev pub codes : String → Text
codes String.[] = []
codes (String.◌∷◌ c s) = code c ∷ codes s

-- Go's `==` on strings.
unfoldable pub same : Text → Text → Bool
same [] [] = true
same [] (b ∷ bs) = false
same (a ∷ as_) [] = false
same (a ∷ as_) (b ∷ bs) = a == b && same as_ bs

pub same→eq : (s t : Text) → same s t ≡ true → s ≡ t
unfolding same
same→eq [] [] h = refl
same→eq [] (b ∷ bs) h = cc
same→eq (a ∷ as_) [] h = cc
same→eq (a ∷ as_) (b ∷ bs) h = ground (arith, same→eq as_ bs)

pub same_refl : (s : Text) → same s s ≡ true
unfolding same
same_refl [] = refl
same_refl (a ∷ as_) = ground (arith, same_refl as_)

pub same_iff : (s t : Text) → (same s t ≡ true) ↔ (s ≡ t)
same_iff s t = (same→eq s t, λ e. rw e (same_refl t))

-- A text without a byte, and the test for it.
abbrev pub Without : ℕ → Text → Type 0
Without d t = All (λ c. ¬ (c ≡ d)) t

abbrev pub lacks : ℕ → Text → Bool
lacks d [] = true
lacks d (c ∷ cs) = not (c == d) && lacks d cs

pub lacks-Without : (d : ℕ) (t : Text) → lacks d t ≡ true → Without d t
lacks-Without d [] e = tt
lacks-Without d (c ∷ cs) e = (ground arith, lacks-Without d cs (ground arith))
