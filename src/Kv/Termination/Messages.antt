-- ===== src/Kv/Termination/Messages.antt =====
-- The fuel of `Generate` is enough.
use cypress.Base.{
  ℕ, zero, suc, ◌<◌, ◌≤◌, ◌≡◌, ◌≢◌, refl, Bool, Option, [], ◌∷◌, ◌==◌, length, subst, arith, inl,
  inr, Bool-cases,
}
use cypress.Base.Text.{Text, codes}
use cypress.Base.Int.{ℤ}
use cypress.Base.Results.{Result, ok, err}
use cypress.Message.Types.{Message}
use cypress.Message.Attributes.{add_string}
use cypress.Kv.Scanning.{Scan}
use cypress.Kv.Parse.{Stop, again, ended, endless, spent, panicked, read_tags}
use cypress.Kv.Generate.{
  until_space, find_start, Start, message_at, bare_message, no_more, read_flag, read_label,
  read_session, read_all_tags, read_body, after_flag, read_entry, new_log, generate_within,
  generate,
}
use cypress.Kv.Termination.{TakesCharacters, Within, then_Within, lifted_lem, wider}
use cypress.Kv.Termination.Starts.{until_space-Within, Begins, find_start-Begins}
use cypress.Kv.Termination.Names.{read_tags-Within}
use cypress.Kv.Termination.Values.{read_pairs-Within}

module _ {T : Type 0} (scan : Scan) (takes : TakesCharacters scan) (parse_int : Text → Option ℤ)
    (parse_float : Text → Option ℕ) (parse_label : Text → Option T) where
  read_label-Within :
      (n : ℕ) (m : Message T) (t : Text)
      → length t ≤ n
      → Within n (read_label scan parse_int parse_float parse_label m t)
  unfolding read_label
  read_label-Within n m [] h = h
  read_label-Within n m (c ∷ t) h = elim (Bool-cases (c == b'@')) [
    | inl label ↦
        rw label
          (then_Within n (until_space t) _ (until_space-Within n t (omega (arith, h))) (λ w u k. k))
    | inr none_here ↦ rw none_here h
  ]

  read_session-Within :
      (n : ℕ) (m : Message T) (t : Text)
      → length t ≤ n
      → Within n (read_session scan parse_int parse_float parse_label m t)
  unfolding read_session
  read_session-Within n m [] h = h
  read_session-Within n m (c ∷ t) h = elim (Bool-cases (c == b'\\')) [
    | inl label ↦
        rw label
          (then_Within n (until_space t) _ (until_space-Within n t (omega (arith, h))) (λ w u k. k))
    | inr none_here ↦ rw none_here h
  ]

  read_all_tags-Within :
      (fuel n : ℕ) (m : Message T) (t : Text)
      → n < fuel
      → length t ≤ n
      → Within n (read_all_tags scan parse_int parse_float parse_label fuel m t)
  unfolding read_all_tags
  read_all_tags-Within fuel n m [] l h = h
  read_all_tags-Within fuel n m (c ∷ t) l h = elim (Bool-cases (c == b'[')) [
    | inl bracket ↦ rw bracket (
        then_Within n (read_tags scan fuel t) _
          (read_tags-Within scan takes fuel n t (omega (arith, h)) (omega (arith, h)))
          (λ tags u k. k))
    | inr none_here ↦ rw none_here h
  ]

  flag_shorter : (c : ℕ) (t : Text) → length (read_flag c t).1 ≤ suc (length t)
  flag_shorter c t = ground arith

  read_body-Within :
      (fuel n : ℕ) (now : T) (t : ℕ) (v : Text)
      → n < fuel
      → length v ≤ n
      → Within n (read_body scan parse_int parse_float parse_label fuel now t v)
  unfolding read_body
  read_body-Within fuel n now t v l h =
      then_Within n (read_label scan parse_int parse_float parse_label (new_log now t) v) _
        (read_label-Within n (new_log now t) v h)
        (λ m a k.
          then_Within n (read_session scan parse_int parse_float parse_label m a) _
            (read_session-Within n m a k)
            (λ m b k.
              then_Within n (read_all_tags scan parse_int parse_float parse_label fuel m b) _
                (read_all_tags-Within fuel n m b l k)
                (λ m d k.
                  read_pairs-Within scan takes parse_int parse_float fuel n m d (omega (arith, k))
                    k)))

  after_flag-Within :
      (fuel n : ℕ) (now : T) (t : ℕ) (u : Text)
      → n < fuel
      → length u ≤ n
      → Within n (after_flag scan parse_int parse_float parse_label fuel now t u)
  unfolding after_flag
  after_flag-Within fuel n now t [] l h = h
  after_flag-Within fuel n now t (d ∷ v) l h = elim (Bool-cases (d == b' ')) [
    | inl space ↦ rw space (read_body-Within fuel n now t v l (omega (arith, h)))
    | inr missing ↦ rw missing (omega (arith, h))
  ]

  read_entry-Within :
      (fuel n : ℕ) (now : T) (t : Text)
      → n < fuel
      → length t ≤ n
      → Within n (read_entry scan parse_int parse_float parse_label fuel now t)
  unfolding read_entry
  read_entry-Within fuel n now [] l h = tt
  read_entry-Within fuel n now (c ∷ t) l h =
      after_flag-Within fuel n now (read_flag c t).0 (read_flag c t).1 l
        (omega (arith, h, flag_shorter c t))

  -- After a message, or on to the next one.
  more_Within :
      (rounds fuel n : ℕ) (bare : Bool) (now : T) (u : Text) (r : Result Stop (Message T × Text))
      → read_entry scan parse_int parse_float parse_label fuel now u ≡ r
      → Within n r
      → ((v : Text)
          → length v ≤ n
          → Within n
              (generate_within scan parse_int parse_float parse_label rounds fuel bare now v))
      → (t : Text) → find_start bare t ≡ message_at u
      → Within n
          (generate_within scan parse_int parse_float parse_label (suc rounds) fuel bare now t)
  unfolding generate_within
  more_Within rounds fuel n bare now u (ok (m, v)) e w k t s = rw (generate_within, s, e) w
  more_Within rounds fuel n bare now u (err (again v)) e w k t s =
      rw (generate_within, s, e) (k v w)
  more_Within rounds fuel n bare now u (err ended) e w k t s = rw (generate_within, s, e) tt
  more_Within rounds fuel n bare now u (err endless) e w k t s = rw (generate_within, s, e) tt
  more_Within rounds fuel n bare now u (err spent) e w k t s = absurd w
  more_Within rounds fuel n bare now u (err (panicked p)) e w k t s = rw (generate_within, s, e) tt

  -- One round, when the later ones are known.
  round_Within :
      (rounds fuel : ℕ) (bare : Bool) (now : T) (t : Text) (s : Start)
      → length t < fuel
      → ((v : Text)
          → length v < length t
          → Within
              (length v)
              (generate_within scan parse_int parse_float parse_label rounds fuel bare now v))
      → find_start bare t ≡ s
      → Begins (length t) s
      → Within
          (length t)
          (generate_within scan parse_int parse_float parse_label (suc rounds) fuel bare now t)
  unfolding generate_within
  round_Within rounds fuel bare now t no_more k later e b = rw (generate_within, e) tt
  round_Within rounds fuel bare now t (bare_message line u) k later e b =
      rw (generate_within, e)
        (lifted_lem (length t) (add_string (new_log now 0) (codes "message") line) (λ m. ok (m, u))
          (λ m. b))
  round_Within rounds fuel bare now t (message_at u) k later e b =
      wider (length u) (length t) _ (omega (arith, b)) (
        more_Within rounds fuel (length u) bare now u _ refl
          (read_entry-Within fuel (length u) now u (omega (arith, b)) (omega arith))
          (λ v h. wider (length v) (length u) _ h (later v (omega (arith, h, b)))) t e)

  generate_within-Within :
      (rounds fuel : ℕ) (bare : Bool) (now : T) (t : Text)
      → length t < rounds
      → length t < fuel
      → Within
          (length t)
          (generate_within scan parse_int parse_float parse_label rounds fuel bare now t)
  generate_within-Within zero fuel bare now t l k = absurd (omega (arith, l))
  generate_within-Within (suc rounds) fuel bare now t l k =
      round_Within rounds fuel bare now t (find_start bare t) k
        (λ v h. generate_within-Within rounds fuel bare now v (omega (arith, h)) (omega (arith, h)))
        refl (find_start-Begins bare t)

  -- Where `Scan` takes a character whenever there is one: `Generate` needs no more rounds of any of its loops
  -- than there are characters, and what it leaves behind a message is no longer than the text it was given.
  pub generate_terminates :
      (bare : Bool) (now : T) (t : Text)
      → (generate scan parse_int parse_float parse_label bare now t ≢ err spent)
        × ((m : Message T) (u : Text)
            → generate scan parse_int parse_float parse_label bare now t ≡ ok (m, u)
            → length u ≤ length t)
  unfolding generate
  generate_terminates bare now t =
      let w =
        generate_within-Within (suc (length t)) (suc (length t)) bare now t (omega arith)
          (omega arith) in
      (λ e. subst (Within (length t)) e w, λ m u e. subst (Within (length t)) e w)
