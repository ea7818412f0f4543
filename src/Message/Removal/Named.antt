-- ===== src/Message/Removal/Named.antt =====
-- `Remove` and `RemoveTag` by the number of entries that bear the name.
use cypress.Base.{ℕ, ◌≡◌, refl, Bool, true, false, List, [], ◌∷◌, ◌++◌, arith, All}
use cypress.Base.Text.{Text, same}
use cypress.Base.Results.{Result, ok, err, Panic, ◌>>=◌}
use cypress.Message.Types.{Attribute, Message}
use cypress.Message.Attributes.{string_key}
use cypress.Message.Removal.{remove}
use cypress.Message.Removal.Unique.{remove_where_once, Misses}
use cypress.Message.Removal.Repeated.{remove_where_repeated}

-- The attribute has a name, and it is (or is not) the one looked for.
abbrev pub Bears : ℕ → Text → Bool → Attribute → Type 0
Bears version key b a = (k : Text) × (string_key version a ≡ ok k) × (same k key ≡ b)

abbrev bears_hit : ℕ → Text → Attribute → Result Panic Bool
bears_hit version key a = string_key version a >>= λ k. ok (same k key)

hit_of_Bears :
    (version : ℕ) (key : Text) (b : Bool) (a : Attribute)
    → Bears version key b a
    → bears_hit version key a ≡ ok b
hit_of_Bears version key b a (k, e, s) = ground arith

Misses-of_Bears :
    (version : ℕ) (key : Text) (attrs : List Attribute)
    → All (Bears version key false) attrs
    → All (Misses (bears_hit version key)) attrs
Misses-of_Bears version key [] h = tt
Misses-of_Bears version key (a ∷ attrs) (h, hs) =
    (hit_of_Bears version key false a h, Misses-of_Bears version key attrs hs)

module _ {T : Type 0} (m : Message T) (key : Text) where
  -- `Remove` takes out an attribute whose name no other attribute bears, and nothing else.
  pub remove_once :
      (pre : List Attribute) (a : Attribute) (post : List Attribute)
      → All (Bears m.version key false) pre
      → Bears m.version key true a
      → All (Bears m.version key false) post
      → remove (record m { attributes = pre ++ a ∷ post }) key
        ≡ ok (record m { attributes = pre ++ post })
  unfolding remove
  remove_once pre a post hp ha hs =
      rw
        (remove_where_once (bears_hit m.version key) pre a post
          (Misses-of_Bears m.version key pre hp) (hit_of_Bears m.version key true a ha)
          (Misses-of_Bears m.version key post hs))
        refl

  -- `Remove` panics when the last attribute bears the name and an earlier one does too.
  pub remove_repeated :
      (pre : List Attribute) (a : Attribute) (mid : List Attribute) (z : Attribute)
      → Bears m.version key true a
      → Bears m.version key true z
      → (p : Panic) × (remove (record m { attributes = pre ++ a ∷ mid ++ z ∷ [] }) key ≡ err p)
  unfolding remove
  remove_repeated pre a mid z ha hz =
      let (p, e) =
        remove_where_repeated (bears_hit m.version key) pre mid a z
          (hit_of_Bears m.version key true a ha) (hit_of_Bears m.version key true z hz) in
      (p, rw e refl)
