-- ===== src/Resend/Balance.antt =====
-- The messages of a connection: in flight, or told to their request.
use cypress.Base.{
  ℕ, suc, ◌+◌, ◌≡◌, ap, ◌∙◌, Bool, true, false, some, List, [], ◌∷◌, ◌++◌, map, map-append,
  if◌then◌else◌, All, ◌⊎◌, arith,
}
use cypress.Send.{InFlight, Notice, ack, nack, closed_down}
use cypress.Resend.{Link}

module _ {M : Type 0} where
  -- How many messages of a list a test picks.
  abbrev pub counted : (M → Bool) → List M → ℕ
  counted p [] = 0
  counted p (m ∷ ms) = (if p m then 1 else 0) + counted p ms

  pub counted-append :
      (p : M → Bool) (xs ys : List M) → counted p (xs ++ ys) ≡ counted p xs + counted p ys
  counted-append p [] ys = omega arith
  counted-append p (x ∷ xs) ys = omega (arith, counted-append p xs ys)

  -- The messages that are acknowledged, and those that are handed back.
  abbrev pub acks : List (Notice (Unit {0}) M) → List M
  acks [] = []
  acks (ack r m ∷ ns) = m ∷ acks ns
  acks (nack r m ∷ ns) = acks ns
  acks (closed_down ∷ ns) = acks ns

  abbrev pub nacks : List (Notice (Unit {0}) M) → List M
  nacks [] = []
  nacks (ack r m ∷ ns) = nacks ns
  nacks (nack r m ∷ ns) = m ∷ nacks ns
  nacks (closed_down ∷ ns) = nacks ns

  abbrev pub downs : List (Notice (Unit {0}) M) → ℕ
  downs [] = 0
  downs (ack r m ∷ ns) = downs ns
  downs (nack r m ∷ ns) = downs ns
  downs (closed_down ∷ ns) = suc (downs ns)

  abbrev pub told_count : (M → Bool) → List (Notice (Unit {0}) M) → ℕ
  told_count p ns = counted p (acks ns) + counted p (nacks ns)

  pub told_count-append :
      (p : M → Bool) (xs ys : List (Notice (Unit {0}) M))
      → told_count p (xs ++ ys) ≡ told_count p xs + told_count p ys
  told_count-append p [] ys = omega arith
  told_count-append p (ack r m ∷ xs) ys = omega (arith, told_count-append p xs ys)
  told_count-append p (nack r m ∷ xs) ys = omega (arith, told_count-append p xs ys)
  told_count-append p (closed_down ∷ xs) ys = told_count-append p xs ys

  pub downs-append : (xs ys : List (Notice (Unit {0}) M)) → downs (xs ++ ys) ≡ downs xs + downs ys
  downs-append [] ys = omega arith
  downs-append (ack r m ∷ xs) ys = downs-append xs ys
  downs-append (nack r m ∷ xs) ys = downs-append xs ys
  downs-append (closed_down ∷ xs) ys = omega (arith, downs-append xs ys)

  abbrev pub messages : List (InFlight (Unit {0}) M) → List M
  messages fs = map (λ f. f.m) fs

  -- What may still be told: nothing once the connection is closed.
  abbrev pub flying : Link M → List M
  flying t = if t.closed then [] else messages t.reqs

  abbrev pub weight : (M → Bool) → Link M → ℕ
  weight p t = told_count p t.notices + counted p (flying t)

  abbrev pub AllOurs : List (InFlight (Unit {0}) M) → Type 0
  AllOurs fs = All (λ f. f.req ≡ some tt) fs

  pub weight_open :
      (p : M → Bool) (t : Link M)
      → t.closed ≡ false
      → weight p t ≡ told_count p t.notices + counted p (messages t.reqs)
  weight_open p t o =
      let e : flying t ≡ messages t.reqs = simp o in
      ap (λ ms. told_count p t.notices + counted p ms) e

  pub weight_shut :
      (p : M → Bool) (t : Link M) → t.closed ≡ true → weight p t ≡ told_count p t.notices
  weight_shut p t o =
      let e : flying t ≡ [] = simp o in
      ap (λ ms. told_count p t.notices + counted p ms) e ∙ omega arith

  pub messages-append :
      (p : M → Bool) (xs ys : List (InFlight (Unit {0}) M))
      → counted p (messages (xs ++ ys)) ≡ counted p (messages xs) + counted p (messages ys)
  messages-append p xs ys =
      rw (map-append (λ f. f.m) xs ys) (counted-append p (messages xs) (messages ys))

  -- A step from `t` to `u` that takes the messages `added` on.
  pub record Effect (t : Link M) (added : List M) (u : Link M) : Type 0 where
    pub balanced : (p : M → Bool) → weight p u ≡ weight p t + counted p added
    pub ours : AllOurs u.reqs
    pub ending :
        (u.closed ≡ true)
        ⊎ ((t.closed ≡ false) × (u.closed ≡ false) × (downs u.notices ≡ downs t.notices))
