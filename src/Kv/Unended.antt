-- ===== src/Kv/Unended.antt =====
-- A line with neither tags nor attributes.
use cypress.Base.{
  ℕ, zero, suc, ◌<◌, ◌≡◌, refl, ap, ◌∙◌, Bool, Option, none, some, [], ◌∷◌, ◌++◌, append_assoc,
  append-nil, length, arith,
}
use cypress.Base.Text.{Text, Without}
use cypress.Base.Int.{ℤ}
use cypress.Base.Results.{Result, ok, err, ◌>>=◌}
use cypress.Message.Types.{Message}
use cypress.Kv.Print.{type_flag, session_text, kv_tags, kv_pairs, kv_string}
use cypress.Kv.Scanning.{Scan}
use cypress.Kv.Parse.{endless, read_pairs}
use cypress.Kv.Generate.{
  until_space, read_label, read_session, read_all_tags, read_entry, new_log, find_start,
  generate_within, generate,
}
use cypress.Kv.BodyRoundTrip.{IsLabel, IsSession, until_space_lem, bare_message_of}

until_space_endless : (w : Text) → Without b' ' w → until_space w ≡ err endless
unfolding until_space
until_space_endless [] h = refl
until_space_endless (c ∷ w) (h, hs) = rw (until_space_endless w hs) (ground arith)

unspaced_lem : (d : ℕ) (v w : Text) → Without d v → Without d w → Without d (v ++ w)
unspaced_lem d [] w h k = k
unspaced_lem d (c ∷ v) w (h, hs) k = (h, unspaced_lem d v w hs k)

-- An error of the first part of a chain is that of the whole.
stopped {ℓ} :
    {E A B C : Type ℓ} (r : Result E A) (f : A → Result E B) (g : B → Result E C) (e : E)
    → (r >>= f) ≡ err e
    → (r >>= λ a. f a >>= g) ≡ err e
stopped (ok a) f g e x = rw x refl
stopped (err d) f g e x = ap (λ z. elim z [ ok b ↦ g b | err q ↦ err q ]) x

module _ (T : Type 0) (scan : Scan) (parse_int : Text → Option ℤ) (parse_float : Text → Option ℕ)
    (parse_label : Text → Option T) where
  chain_endless :
      (fuel : ℕ) (m : Message T) (v : Text)
      → (read_label scan parse_int parse_float parse_label m v >>= λ (m, a).
          read_session scan parse_int parse_float parse_label m a)
        ≡ err endless
      → (read_label scan parse_int parse_float parse_label m v >>= λ (m, a).
          read_session scan parse_int parse_float parse_label m a >>= λ (m, b).
          read_all_tags scan parse_int parse_float parse_label fuel m b >>= λ (m, d).
          read_pairs scan parse_int parse_float fuel m d)
        ≡ err endless
  chain_endless fuel m v x =
      stopped (read_label scan parse_int parse_float parse_label m v)
        (λ (m, a). read_session scan parse_int parse_float parse_label m a)
        (λ (m, b). read_all_tags scan parse_int parse_float parse_label fuel m b >>= λ (m, d).
          read_pairs scan parse_int parse_float fuel m d)
        endless x

  -- `read_entry` when the time stamp or the session does not end.
  message_endless :
      (fuel t : ℕ) (now : T) (v : Text)
      → t < 5
      → (read_label scan parse_int parse_float parse_label (new_log now t) v >>= λ (m, a).
          read_session scan parse_int parse_float parse_label m a)
        ≡ err endless
      → read_entry scan parse_int parse_float parse_label fuel now (type_flag t ++ v) ≡ err endless
  unfolding read_entry
  message_endless fuel zero now v l x = chain_endless fuel (new_log now 0) v x
  message_endless fuel (suc zero) now v l x = chain_endless fuel (new_log now 1) v x
  message_endless fuel (suc (suc zero)) now v l x = chain_endless fuel (new_log now 2) v x
  message_endless fuel (suc (suc (suc zero))) now v l x = chain_endless fuel (new_log now 3) v x
  message_endless fuel (suc (suc (suc (suc zero)))) now v l x =
      chain_endless fuel (new_log now 4) v x
  message_endless fuel (suc (suc (suc (suc (suc t))))) now v l x = absurd (omega (arith, l))

  all_endless :
      (bare : Bool) (now : T) (u : Text)
      → read_entry scan parse_int parse_float parse_label (suc (length (b'>' ∷ u))) now u
        ≡ err endless
      → generate scan parse_int parse_float parse_label bare now (b'>' ∷ u) ≡ err endless
  unfolding generate generate_within find_start
  all_endless bare now u e = rw (generate, generate_within, e) refl

  module _ (format_float : ℕ → Text) (label : T → Text) (labels : IsLabel T label parse_label) where
    stamp_endless :
        (m : Message T) (stamp : T) (session : Option Text) (r : Text)
        → IsSession session
        → Without b' ' r
        → (read_label scan parse_int parse_float parse_label m
              (label stamp ++ (session_text session ++ r))
            >>= λ (m, a). read_session scan parse_int parse_float parse_label m a)
          ≡ err endless
    unfolding read_label read_session
    stamp_endless m stamp none r s h =
        rw
          (
            labels.marked stamp,
            until_space_endless (labels.digits stamp ++ r)
                (unspaced_lem b' ' (labels.digits stamp) r (labels.unspaced stamp) h),
          )
          refl
    stamp_endless m stamp (some []) r s h = absurd s
    stamp_endless m stamp (some (c ∷ w)) r s h =
        rw
          (
            labels.marked stamp,
            until_space_lem (labels.digits stamp) (b'\\' ∷ c ∷ w ++ r) (labels.unspaced stamp),
            until_space_endless (c ∷ w ++ r) (unspaced_lem b' ' (c ∷ w) r s h),
          )
          refl

    -- With labels that have no space: a message of one of the five types without tags and attributes, whose
    -- session is missing or has no space and is not empty, is printed as a line, but where no space
    -- follows it the parser reads on and on at the end of the input.
    pub generate_endless :
        (bare : Bool) (now stamp : T) (t : ℕ) (session : Option Text) (r : Text)
        → t < 5
        → IsSession session
        → Without b' ' r
        → (line : Text) × (kv_string format_float label (bare_message_of stamp t session [])
            ≡ ok line)
          × (generate scan parse_int parse_float parse_label bare now (line ++ r) ≡ err endless)
    unfolding kv_string kv_tags kv_pairs
    generate_endless bare now stamp t session r small s h =
        let text = label stamp ++ (session_text session ++ []) in
        let line : Text = b'>' ∷ type_flag t ++ text in
        let u : Text = type_flag t ++ (label stamp ++ (session_text session ++ r)) in
        let joined : line ++ r ≡ b'>' ∷ u =
          append_assoc (b'>' ∷ type_flag t) text r
          ∙ ap (λ x. b'>' ∷ type_flag t ++ x)
              (append_assoc (label stamp) (session_text session ++ []) r
                ∙ ap (λ x. label stamp ++ (x ++ r)) (append-nil (session_text session))) in
        (
          line,
          refl,
          rw joined (
              all_endless bare now u (
                message_endless (suc (length (b'>' ∷ u))) t now
                  (label stamp ++ (session_text session ++ r)) small
                  (stamp_endless (new_log now t) stamp session r s h))),
        )
