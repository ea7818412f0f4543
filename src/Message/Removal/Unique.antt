-- ===== src/Message/Removal/Unique.antt =====
-- Removing a name that occurs once, or not at all.
use native.Mathlib.Nat.{add-zero, zero-add}
use cypress.Base.{
  ℕ, zero, suc, ◌+◌, ◌-◌, ◌<◌, ◌≡◌, refl, ap, ◌∙◌, Bool, true, false, some, List, [], ◌∷◌, ◌++◌,
  arith, length, length-append, get_elem?, get_elem?-append_right, All, take, append-nil,
  append_assoc, sym, take-append_length, get_elem?-append_left, lt→ltb,
}
use cypress.Base.Results.{Result, ok, Panic}
use cypress.Message.Removal.{shift_down, remove_loop, remove_where}

All-append_last :
    {A : Type 0} (P : A → Type 0) (xs : List A) (l : A) → All P xs → P l → All P (xs ++ l ∷ [])
All-append_last P [] l h m = (m, tt)
All-append_last P (x ∷ xs) l h m = (h.0, All-append_last P xs l h.1 m)

past_first :
    {A : Type 0} (pre : List A) (y : A) (xs : List A) (j : ℕ) {a : A}
    → get_elem? xs j ≡ some a
    → get_elem? (pre ++ y ∷ xs) (length pre + 1 + j) ≡ some a
past_first pre y xs j e =
    let place : length pre + 1 + j ≡ length pre + suc j = omega arith in
    rw (place, get_elem?-append_right pre (y ∷ xs) (suc j)) e

take_all : {A : Type 0} (xs : List A) → take (length xs) xs ≡ xs
take_all {A} [] = refl
take_all {A} (x ∷ xs) = ap (λ (t : List A). x ∷ t) (take_all xs)

module _ {A : Type 0} (hit : A → Result Panic Bool) where
  abbrev pub Misses : A → Type 0
  Misses a = hit a ≡ ok false

  round_miss :
      (left idx : ℕ) (xs : List A) (len : ℕ) (a : A)
      → get_elem? xs idx ≡ some a
      → Misses a
      → remove_loop hit (suc left) idx xs len ≡ remove_loop hit left (idx + 1) xs len
  unfolding remove_loop
  round_miss left idx xs len a e h = ground arith

  round_hit :
      (left idx : ℕ) (xs : List A) (len : ℕ) (a : A)
      → get_elem? xs idx ≡ some a
      → hit a ≡ ok true
      → idx < len
      → remove_loop hit (suc left) idx xs len
        ≡ remove_loop hit left (idx + 1) (shift_down idx len xs) (len - 1)
  unfolding remove_loop
  round_hit left idx xs len a e h l = ground (arith, lt→ltb idx len l)

  -- Over cells that miss the loop changes nothing.
  skip :
      (mid : List A) (left idx : ℕ) (xs : List A) (len : ℕ)
      → All Misses mid
      → ((j : ℕ) (a : A) → get_elem? mid j ≡ some a → get_elem? xs (idx + j) ≡ some a)
      → remove_loop hit (length mid + left) idx xs len
        ≡ remove_loop hit left (idx + length mid) xs len
  skip [] left idx xs len h at = rw (zero-add, add-zero)
  skip (a ∷ mid) left idx xs len (h, hs) at =
      let rounds : suc (length mid) + left ≡ suc (length mid + left) = omega arith in
      let place : idx + suc (length mid) ≡ idx + 1 + length mid = omega arith in
      rw (rounds, place)
        (round_miss (length mid + left) idx xs len a (rw add-zero at (at 0 a refl)) h
          ∙ skip mid left (idx + 1) xs len hs (λ j b e. next j b e))
    where
      next : (j : ℕ) (b : A) → get_elem? mid j ≡ some b → get_elem? xs (idx + 1 + j) ≡ some b
      next j b e = let place : idx + 1 + j ≡ idx + suc j = omega arith in rw place (at (suc j) b e)

  shift_head :
      (y : A) (post : List A)
      → All Misses (y ∷ post)
      → (l : A) × Misses l × (shift_down zero (suc (length post)) (y ∷ post) ≡ post ++ l ∷ [])
  unfolding shift_down
  shift_head y [] h = (y, h.0, refl)
  shift_head y (z ∷ post) h =
      let (l, m, e) = shift_head z post h.1 in (l, m, ap (λ (t : List A). z ∷ t) e)

  shift_middle :
      (pre : List A) (k : ℕ) (xs : List A)
      → shift_down (length pre) (length pre + k) (pre ++ xs) ≡ pre ++ shift_down zero k xs
  unfolding shift_down
  shift_middle [] k xs = rw zero-add
  shift_middle (p ∷ pre) k xs =
      let e : suc (length pre) + k ≡ suc (length pre + k) = omega arith in
      rw e (ap (λ (t : List A). p ∷ t) (shift_middle pre k xs))

  finished :
      (pre : List A) (x : A)
      → remove_loop hit 0 (length pre + 1) (pre ++ x ∷ []) (length pre) ≡ ok (pre ++ [])
  unfolding remove_loop
  finished pre x = ap ok (take-append_length pre (x ∷ []) ∙ sym (append-nil pre))

  after_hit :
      (pre : List A) (x : A) (post : List A)
      → All Misses post
      → remove_loop hit
          (length post)
          (length pre + 1)
          (pre ++ shift_down zero (suc (length post)) (x ∷ post))
          (length pre + length post)
        ≡ ok (pre ++ post)
  unfolding shift_down
  after_hit pre x [] h =
      let e : length pre + 0 ≡ length pre = add-zero (length pre) in rw e (finished pre x)
  after_hit pre x (y ∷ post) h =
      let (l, m, e) = shift_head y post h in
      let cells : All Misses (post ++ l ∷ []) = All-append_last Misses post l h.1 m in
      let size : suc (length post) ≡ length (post ++ l ∷ []) + 0 =
        omega (arith, length-append post (l ∷ [])) in
      let total : length pre + suc (length post) ≡ length (pre ++ y ∷ post) =
        omega (arith, length-append pre (y ∷ post)) in
      let regroup : pre ++ y ∷ (post ++ l ∷ []) ≡ (pre ++ y ∷ post) ++ l ∷ [] =
        sym (append_assoc pre (y ∷ post) (l ∷ [])) in
      rw (e, total, size)
        (skip (post ++ l ∷ []) 0 (length pre + 1) (pre ++ y ∷ (post ++ l ∷ []))
            (length (pre ++ y ∷ post)) cells (λ j a f. past_first pre y (post ++ l ∷ []) j f)
          ∙ unfold remove_loop in
            ap ok (rw regroup (take-append_length (pre ++ y ∷ post) (l ∷ []))))

  -- Of an element that alone hits, the deletion takes out just that one.
  pub remove_where_once :
      (pre : List A) (x : A) (post : List A)
      → All Misses pre
      → hit x ≡ ok true
      → All Misses post
      → remove_where hit (pre ++ x ∷ post) ≡ ok (pre ++ post)
  unfolding remove_where
  remove_where_once pre x post hp hx hs =
      let n : ℕ = length pre + suc (length post) in
      let size : length (pre ++ x ∷ post) ≡ n = length-append pre (x ∷ post) in
      let less : n - 1 ≡ length pre + length post = omega arith in
      rw size (
        skip pre (suc (length post)) 0 (pre ++ x ∷ post) n hp
          (λ j a e. rw zero-add (get_elem?-append_left pre (x ∷ post) j e))
        ∙ rw zero-add (
            round_hit (length post) (length pre) (pre ++ x ∷ post) n x
              (rw add-zero at (get_elem?-append_right pre (x ∷ post) 0)) hx (omega arith)
            ∙ rw (shift_middle pre (suc (length post)) (x ∷ post), less) (after_hit pre x post hs)))

  -- Where nothing hits, nothing changes.
  pub remove_where_absent : (xs : List A) → All Misses xs → remove_where hit xs ≡ ok xs
  unfolding remove_where
  remove_where_absent xs h =
      let rounds : length xs ≡ length xs + 0 = omega arith in
      ap (λ (n : ℕ). remove_loop hit n 0 xs (length xs)) rounds
      ∙ skip xs 0 0 xs (length xs) h (λ j a e. rw zero-add e)
      ∙ unfold remove_loop in ap ok (take_all xs)
