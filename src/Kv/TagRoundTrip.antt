-- ===== src/Kv/TagRoundTrip.antt =====
-- The tags of a line read back.
use cypress.Base.{
  ℕ, zero, suc, ◌<◌, ◌≡◌, refl, ap, ◌∙◌, Bool, true, false, Option, none, some, List, [], ◌∷◌, ◌++◌,
  append_assoc, length, length-append, take-append_length, arith, subst, Option-cases, inl, inr,
}
use cypress.Base.Text.{Text}
use cypress.Base.Results.{ok}
use cypress.Message.Types.{Tag}
use cypress.Kv.Print.{strquote, quoted_text, space_before, tag_texts}
use cypress.Kv.Scanning.{ident, other, Lexeme, Scan, is_mark}
use cypress.Kv.Parse.{unquote, dotted, read_name, read_tag, read_tags}
use cypress.Kv.Laws.{IsWord, IsPlain, ends_word, IsScanner}

pub strquote-IsPlain : (s : Text) → IsPlain s → strquote s ≡ s
unfolding strquote
strquote-IsPlain [] h = refl
strquote-IsPlain (c ∷ cs) (h, hs) = ground (arith, strquote-IsPlain cs hs)

pub unquote_lem : (s : Text) → unquote (b'"' ∷ s ++ b'"' ∷ []) ≡ ok s
unfolding unquote
unquote_lem s = ground (arith, length-append s (b'"' ∷ []), take-append_length s (b'"' ∷ []))

-- A word or a plain text with quotes, and a tag without a value in front of none that has one.
abbrev HasPlain : Option Text → Type 0
HasPlain none = Unit
HasPlain (some v) = IsPlain v

abbrev starts_bare : List Tag → Bool
starts_bare [] = true
starts_bare (t ∷ tags) = elim t.value [ none ↦ true | some v ↦ false ]

abbrev pub ArePrintable : List Tag → Type 0
ArePrintable [] = Unit
ArePrintable (t ∷ tags) =
    IsWord t.name
    × HasPlain t.value
    × (t.value ≡ none → starts_bare tags ≡ true)
    × ArePrintable tags

module _ (scan : Scan) (laws : IsScanner scan) where
  pub dotted_once :
      (fuel : ℕ) (name t : Text) → ends_word t ≡ true → dotted scan (suc fuel) name t ≡ ok (name, t)
  unfolding dotted
  dotted_once fuel name [] e = refl
  dotted_once fuel name (c ∷ t) e = ground arith

  pub read_name_word :
      (fuel : ℕ) (w t : Text)
      → ends_word t ≡ true
      → read_name scan (suc fuel) (record { kind = ident; text = w }) t ≡ ok (w, t)
  unfolding read_name
  read_name_word fuel w t e = dotted_once fuel w t e

  read_tags_blank :
      (fuel : ℕ) (t : Text) → read_tags scan (suc fuel) (b' ' ∷ t) ≡ read_tags scan (suc fuel) t
  unfolding read_tags
  read_tags_blank fuel t = rw (laws.blank t) refl

  read_valued :
      (fuel : ℕ) (name v t : Text)
      → IsPlain v
      → read_tag scan (suc fuel) (record { kind = ident; text = name }) (b'=' ∷ quoted_text v ++ t)
        ≡ ok (record { name = name; value = some v }, t)
  unfolding read_tag quoted_text
  read_valued fuel name v t h = rw (
    strquote-IsPlain v h,
    append_assoc v (b'"' ∷ []) t,
    laws.mark b'=' (b'"' ∷ v ++ b'"' ∷ t) (inl refl),
    laws.literal v t h,
    unquote_lem v,
  )

  read_bare :
      (fuel : ℕ) (name t : Text)
      → IsWord name
      → ends_word t ≡ true
      → read_tag scan fuel (record { kind = other b'!'; text = b'!' ∷ [] }) (name ++ t)
        ≡ ok (record { name = name; value = none }, t)
  unfolding read_tag
  read_bare fuel name t w e = rw (laws.word name t w e) refl

  -- One more round of the loop, when the first token and the tag are known.
  read_tags_on :
      (fuel : ℕ) (text t u : Text) (lex : Lexeme) (tag : Tag) (tags : List Tag) (v : Text)
      → scan text ≡ (lex, t)
      → is_mark b']' lex.kind ≡ false
      → read_tag scan fuel lex t ≡ ok (tag, u)
      → read_tags scan fuel u ≡ ok (tags, v)
      → read_tags scan (suc fuel) text ≡ ok (tag ∷ tags, v)
  unfolding read_tags
  read_tags_on fuel text t u lex tag tags v a b c d = rw (a, b, c, d)

  read_tags_end : (fuel : ℕ) (t : Text) → read_tags scan (suc fuel) (b']' ∷ t) ≡ ok ([], t)
  unfolding read_tags
  read_tags_end fuel t = rw (laws.mark b']' t (inr (inr (inr refl)))) refl

  read_tags_space :
      (fuel : ℕ) (tags : List Tag) (t : Text)
      → read_tags scan (suc fuel) (space_before tags ++ t) ≡ read_tags scan (suc fuel) t
  read_tags_space fuel [] t = refl
  read_tags_space fuel (u ∷ us) t = read_tags_blank fuel t

  valued_text :
      (tag : Tag) (tags : List Tag) (v r : Text)
      → tag.value ≡ some v
      → tag_texts (tag ∷ tags) ++ r
        ≡ tag.name ++ (b'=' ∷ (quoted_text v ++ (space_before tags ++ (tag_texts tags ++ r))))
  unfolding tag_texts
  valued_text tag tags v r e = rw e (
      append_assoc tag.name (b'=' ∷ (quoted_text v ++ (space_before tags ++ tag_texts tags))) r
      ∙ ap (λ x. tag.name ++ (b'=' ∷ x))
          (append_assoc (quoted_text v) (space_before tags ++ tag_texts tags) r
            ∙ ap (λ x. quoted_text v ++ x) (append_assoc (space_before tags) (tag_texts tags) r)))

  bare_text :
      (tag : Tag) (tags : List Tag) (r : Text)
      → tag.value ≡ none
      → tag_texts (tag ∷ tags) ++ r ≡ b'!' ∷ (tag.name ++ (tag_texts tags ++ r))
  unfolding tag_texts
  bare_text tag tags r e = rw e (ap (λ x. b'!' ∷ x) (append_assoc tag.name (tag_texts tags) r))

  -- Behind a tag without a value stands an exclamation mark or the bracket.
  bare_ends :
      (tags : List Tag) (t : Text)
      → starts_bare tags ≡ true
      → ends_word (tag_texts tags ++ b']' ∷ t) ≡ true
  unfolding tag_texts
  bare_ends [] t s = refl
  bare_ends (u ∷ us) t s = elim (Option-cases u.value) [
    | inl e ↦ rw (bare_text u us (b']' ∷ t) e) refl
    | inr (v, e) ↦ absurd (ground arith)
  ]

  named :
      (tag : Tag) (o : Option Text) → tag.value ≡ o → record { name = tag.name; value = o } ≡ tag
  named tag o e = rw⁻¹ e refl

  -- The tags of a printed list, up to the bracket behind them.
  pub read_tags_lem :
      (fuel : ℕ) (tags : List Tag) (t : Text)
      → length tags < fuel
      → ArePrintable tags
      → read_tags scan fuel (tag_texts tags ++ b']' ∷ t) ≡ ok (tags, t)
  unfolding tag_texts
  read_tags_lem zero tags t l h = absurd (omega (arith, l))
  read_tags_lem (suc fuel) [] t l h = read_tags_end fuel t
  read_tags_lem (suc zero) (tag ∷ tags) t l h = absurd (omega (arith, l))
  read_tags_lem (suc (suc fuel)) (tag ∷ tags) t l (w, p, b, h) =
      let rest = tag_texts tags ++ b']' ∷ t in
      let again = read_tags_lem (suc fuel) tags t (omega arith) h in
      elim (Option-cases tag.value) [
        | inl e ↦ rw (bare_text tag tags (b']' ∷ t) e) (
            read_tags_on (suc fuel) (b'!' ∷ (tag.name ++ rest)) (tag.name ++ rest) rest
              (record { kind = other b'!'; text = b'!' ∷ [] }) tag tags t
              (laws.mark b'!' (tag.name ++ rest) (inr (inr (inl refl)))) refl
              (subst
                (λ g.
                  read_tag scan (suc fuel) (record { kind = other b'!'; text = b'!' ∷ [] })
                    (tag.name ++ rest)
                  ≡ ok (g, rest))
                (named tag none e) (read_bare (suc fuel) tag.name rest w (bare_ends tags t (b e))))
              again)
        | inr (v, e) ↦
            let after = space_before tags ++ rest in
            let lex : Lexeme = record { kind = ident; text = tag.name } in
            let value : Text = b'=' ∷ (quoted_text v ++ after) in
            let plain : IsPlain v = rw e at p in
            rw (valued_text tag tags v (b']' ∷ t) e) (
              read_tags_on (suc fuel) (tag.name ++ value) value after lex tag tags t
                (laws.word tag.name value w refl) refl
                (subst (λ g. read_tag scan (suc fuel) lex value ≡ ok (g, after))
                  (named tag (some v) e) (read_valued fuel tag.name v after plain))
                (read_tags_space fuel tags rest ∙ again))
      ]
