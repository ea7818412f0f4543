-- ===== src/Syslog/Priority.antt =====
-- Which priorities the tables serve.
use cypress.Base.{
  ℕ, ◌/◌, ◌%◌, ◌≤◌, ◌<◌, ◌≡◌, ◌⊎◌, inl, inr, refl, none, some, arith, length, get_elem?, ltb,
  lt→ltb, false, if◌then◌else◌,
}
use cypress.Base.Text.{Text}
use cypress.Base.Int.{pos, negsuc}
use cypress.Base.Results.{ok, err, index_out_of_range}
use cypress.Base.Results.{index-err, index-below}
use cypress.Syslog.{facility, severity, priority_names}

le→ltb_not : (a b : ℕ) → b ≤ a → ltb a b ≡ false
le→ltb_not a b h = ground arith

high_facility :
    (prio : ℕ) → 192 ≤ prio → prio < 200 → priority_names (pos prio) ≡ err index_out_of_range
unfolding priority_names
high_facility prio h k =
    let past = index-err facility (prio / 8) (omega arith) in
    rw (le→ltb_not (length facility) (prio / 8) (omega arith), lt→ltb 8 prio (omega arith), past)
      refl

low_priority :
    (prio : ℕ)
    → prio < 8
    → (s : Text) × (get_elem? severity prio ≡ some s) × (priority_names (pos prio) ≡ ok (none, s))
unfolding priority_names
low_priority prio h =
    let (s, e, i) = index-below severity prio h in
    (s, e, rw (le→ltb_not 8 prio (omega arith), i) refl)

abbrev facility_of : ℕ → ℕ
facility_of prio = if ltb prio 192 then prio / 8 else 0

both_names :
    (prio : ℕ)
    → 8 < prio
    → (prio < 192) ⊎ (200 ≤ prio)
    → (f s : Text) × (get_elem? facility (facility_of prio) ≡ some f)
      × (get_elem? severity (prio % 8) ≡ some s)
      × (priority_names (pos prio) ≡ ok (some f, s))
unfolding priority_names
both_names prio h k =
    let same : (if ltb 24 (prio / 8) then 0 else prio / 8) ≡ facility_of prio = ground arith in
    let small : facility_of prio < 24 = ground arith in
    let (f, e, i) = index-below facility (facility_of prio) small in
    let (s, d, j) = index-below severity (prio % 8) (omega arith) in
    (f, s, e, d, rw (lt→ltb 8 prio h, same, i, j) refl)

-- A priority has its names exactly when it is a number from 0 to 191, or from 200 on, and not 8.
-- From 9 to 191 they are the facility of its quotient by 8 and the severity of its remainder; below
-- 8 there is only a severity; from 200 on the facility is the first one. On 8, on 192 to 199 and on
-- negative numbers the parser reads a table out of range and panics.
pub priority_names_cases :
    (prio : ℕ)
    → ((prio ≡ 8) ⊎ ((192 ≤ prio) × (prio < 200))
        → priority_names (pos prio) ≡ err index_out_of_range)
      × (priority_names (negsuc prio) ≡ err index_out_of_range)
      × (prio < 8
          → (s : Text) × (get_elem? severity prio ≡ some s)
            × (priority_names (pos prio) ≡ ok (none, s)))
      × (8 < prio
          → (prio < 192) ⊎ (200 ≤ prio)
          → (f s : Text) × (get_elem? facility (facility_of prio) ≡ some f)
            × (get_elem? severity (prio % 8) ≡ some s)
            × (priority_names (pos prio) ≡ ok (some f, s)))
priority_names_cases prio =
    (panics, unfold priority_names in refl, low_priority prio, both_names prio)
  where
    panics :
        (prio ≡ 8) ⊎ ((192 ≤ prio) × (prio < 200))
        → priority_names (pos prio) ≡ err index_out_of_range
    panics (inl e) = rw e (unfold priority_names in refl)
    panics (inr (h, k)) = high_facility prio h k
