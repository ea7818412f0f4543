-- ===== src/Message/Removal.antt =====
-- log.go: `Remove` and `RemoveTag`. Both delete from the slice over which they range, so the model
-- has the backing array and the length of the slice apart.
pub mod Unique
pub mod Repeated
pub mod Named
use cypress.Base.{
  ℕ, zero, suc, ◌+◌, ◌-◌, Bool, true, false, Option, none, some, List, [], ◌∷◌, length, get_elem?,
  ltb, take, if◌then◌else◌,
}
use cypress.Base.Text.{Text, same}
use cypress.Base.Results.{Result, ok, err, Panic, slice_bounds, ◌>>=◌}
use cypress.Message.Types.{Attribute, Message, Tag}
use cypress.Base.Results.{index}
use cypress.Message.Attributes.{string_key}

module _ {A : Type 0} where
  -- `append(s[:i], s[i+1:]...)` on the array of a slice of length `len`: the elements behind `i`
  -- move down by one, and the cells from `len - 1` on keep what they hold.
  pub shift_down : ℕ → ℕ → List A → List A
  shift_down zero (suc (suc len)) (x ∷ y ∷ xs) = y ∷ shift_down zero (suc len) (y ∷ xs)
  shift_down (suc i) (suc len) (x ∷ xs) = x ∷ shift_down i len xs
  shift_down _ _ xs = xs

  -- The loop `for idx, x := range s` with `left` rounds to go, over the array `xs` of the slice,
  -- whose length is now `len`. The range reads the array, not the shortened slice.
  pub remove_loop : (A → Result Panic Bool) → ℕ → ℕ → List A → ℕ → Result Panic (List A)
  unfolding shift_down
  remove_loop hit zero idx xs len = ok (take len xs)
  remove_loop hit (suc left) idx xs len =
      let kept = remove_loop hit left (idx + 1) xs len in
      let removed = remove_loop hit left (idx + 1) (shift_down idx len xs) (len - 1) in
      index xs idx >>= λ x.
      hit x >>= λ found. if found then (if ltb idx len then removed else err slice_bounds) else kept

  pub remove_where : (A → Result Panic Bool) → List A → Result Panic (List A)
  unfolding remove_loop
  remove_where hit xs = remove_loop hit (length xs) 0 xs (length xs)

module _ {T : Type 0} where
  -- `Message.Remove`
  pub remove : Message T → Text → Result Panic (Message T)
  unfolding remove_where
  remove m key =
      remove_where (λ a. string_key m.version a >>= λ k. ok (same k key)) m.attributes >>= λ attrs.
      ok (record m { attributes = attrs })

  -- `Message.RemoveTag`
  pub remove_tag : Message T → Text → Result Panic (Message T)
  unfolding remove_where
  remove_tag m key =
      remove_where (λ t. ok (same t.name key)) m.tags >>= λ tags. ok (record m { tags = tags })
