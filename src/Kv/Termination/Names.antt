-- ===== src/Kv/Termination/Names.antt =====
-- The loops over the tokens of names and tags.
use cypress.Base.{
  ℕ, zero, suc, ◌<◌, ◌≤◌, ◌≡◌, refl, ap, false, ◌||◌, [], ◌∷◌, ◌++◌, ◌==◌, length, arith, inl, inr,
  Bool-cases,
}
use cypress.Base.Text.{Text}
use cypress.Base.Results.{ok, err}
use cypress.Message.Types.{Tag}
use cypress.Kv.Scanning.{Kind, Lexeme, eof_token, Scan, is_ident, is_string, is_mark, is_eof}
use cypress.Kv.Parse.{
  Stop, again, spent, unquote, give_up, dotted, read_name, read_tag_value, read_tag, read_tags,
}
use cypress.Kv.Termination.{TakesCharacters, StopsWithin, Within, then_Within, lifted_lem, wider}

module _ (scan : Scan) (takes : TakesCharacters scan) where
  pub scan_le : (t : Text) → length (scan t).1 ≤ length t
  scan_le [] = omega (arith, ap length takes.stays)
  scan_le (c ∷ t) = omega (arith, takes.shorter c t)

  bad-Within {ℓ} :
      (A : Type ℓ) (fuel : ℕ) (t : Text)
      → length t < fuel
      → Within (length t) (give_up scan {A = A × Text} fuel t)
  unfolding give_up
  bad-Within A zero t l = absurd (omega (arith, l))
  bad-Within A (suc fuel) [] l = rw (takes.at_eof) (scan_le [])
  bad-Within A (suc fuel) (c ∷ t) l =
      elim (Bool-cases (is_mark 10 (scan (c ∷ t)).0.kind || is_eof (scan (c ∷ t)).0.kind)) [
        | inl stop ↦ rw stop (scan_le (c ∷ t))
        | inr go ↦ rw go (
            wider (length (scan (c ∷ t)).1) (length (c ∷ t)) (give_up scan fuel (scan (c ∷ t)).1)
              (scan_le (c ∷ t))
              (bad-Within A fuel (scan (c ∷ t)).1 (omega (arith, takes.shorter c t))))
      ]

  pub bad_from {ℓ} :
      (A : Type ℓ) (fuel n : ℕ) (u : Text)
      → length u < fuel
      → length u ≤ n
      → Within n (give_up scan {A = A × Text} fuel u)
  bad_from A fuel n u l h = wider (length u) n (give_up scan fuel u) h (bad-Within A fuel u l)

  dotted-Within :
      (fuel n : ℕ) (name t : Text)
      → length t < fuel
      → length t ≤ n
      → Within n (dotted scan fuel name t)
  unfolding dotted
  dotted-Within zero n name t l h = absurd (omega (arith, l))
  dotted-Within (suc fuel) n name [] l h = h
  dotted-Within (suc fuel) n name (c ∷ t) l h =
      let v = (scan (c ∷ t)).1 in
      let u = (scan v).1 in
      let short : length u ≤ length t = omega (arith, takes.shorter c t, scan_le v) in
      elim (Bool-cases (c == b'.')) [
        | inr stop ↦ rw stop h
        | inl point ↦ elim (Bool-cases (is_ident (scan v).0.kind)) [
          | inl good ↦
              rw (point, good)
                (dotted-Within fuel n (name ++ b'.' ∷ (scan v).0.text) u (omega (arith, short))
                  (omega (arith, short)))
          | inr wrong ↦
              rw (point, wrong)
                (bad_from (Text) fuel n u (omega (arith, short)) (omega (arith, short)))
        ]
      ]

  pub read_name-Within :
      (fuel n : ℕ) (lex : Lexeme) (t : Text)
      → length t < fuel
      → length t ≤ n
      → Within n (read_name scan fuel lex t)
  unfolding read_name
  read_name-Within fuel n lex t l h = elim (Bool-cases (is_ident lex.kind)) [
    | inl word ↦ rw word (dotted-Within fuel n lex.text t l h)
    | inr other_kind ↦ elim (Bool-cases (is_string lex.kind)) [
      | inl quote ↦
          rw (other_kind, quote) (lifted_lem n (unquote lex.text) (λ w. ok (w, t)) (λ w. h))
      | inr wrong ↦ rw (other_kind, wrong) (bad_from Text fuel n t l h)
    ]
  ]

  read_tag_value-Within :
      (fuel n : ℕ) (key u : Text)
      → n < fuel
      → length u ≤ n
      → Within n (read_tag_value scan fuel key u)
  unfolding read_tag_value
  read_tag_value-Within fuel n key u l h =
      let v = (scan u).1 in
      let w = (scan v).1 in
      let short : (length v ≤ n) × (length w ≤ n) =
        (omega (arith, scan_le u, h), omega (arith, scan_le u, scan_le v, h)) in
      elim (Bool-cases (is_mark b'=' (scan u).0.kind)) [
        | inr wrong ↦ rw wrong (bad_from Tag fuel n v (omega (arith, short.0)) short.0)
        | inl sign ↦ elim (Bool-cases (is_string (scan v).0.kind)) [
          | inl quote ↦
              rw (sign, quote) (lifted_lem n (unquote (scan v).0.text) _ (λ text. short.1))
          | inr bare ↦ elim (Bool-cases (is_ident (scan v).0.kind)) [
            | inl word ↦ rw (sign, bare, word) short.1
            | inr wrong ↦
                rw (sign, bare, wrong) (bad_from Tag fuel n w (omega (arith, short.1)) short.1)
          ]
        ]
      ]

  read_tag-Within :
      (fuel n : ℕ) (lex : Lexeme) (t : Text)
      → n < fuel
      → length t ≤ n
      → Within n (read_tag scan fuel lex t)
  unfolding read_tag
  read_tag-Within fuel n lex t l h =
      let u = (scan t).1 in
      let short : length u ≤ n = omega (arith, scan_le t, h) in
      elim (Bool-cases (is_mark b'!' lex.kind)) [
        | inl flag ↦ elim (Bool-cases (is_ident (scan t).0.kind)) [
          | inl good ↦ rw (flag, good) short
          | inr wrong ↦ rw (flag, wrong) (bad_from Tag fuel n u (omega (arith, short)) short)
        ]
        | inr plain ↦ rw plain (
            then_Within n (read_name scan fuel lex t) (λ (key, v). read_tag_value scan fuel key v)
              (read_name-Within fuel n lex t (omega arith) h)
              (λ key v k. read_tag_value-Within fuel n key v l k))
      ]

  bad_err {ℓ} :
      (A : Type ℓ) (fuel : ℕ) (t : Text) → (e : Stop) × (give_up scan {A = A} fuel t ≡ err e)
  unfolding give_up
  bad_err A zero t = (spent, refl)
  bad_err A (suc fuel) t =
      elim (Bool-cases (is_mark 10 (scan t).0.kind || is_eof (scan t).0.kind)) [
        | inl stop ↦ (again (scan t).1, rw stop refl)
        | inr go ↦ let (e, same) = bad_err A fuel (scan t).1 in (e, rw go same)
      ]

  -- At the end of the input no tag is read.
  no_tag :
      (fuel n : ℕ) (lex : Lexeme) (t : Text)
      → lex.kind ≡ eof_token
      → length t < fuel
      → length t ≤ n
      → (e : Stop) × (read_tag scan fuel lex t ≡ err e) × StopsWithin n e
  unfolding read_tag read_name
  no_tag fuel n lex t e l h =
      let (stop, same) = bad_err (Text × Text) fuel t in
      (stop, rw (e, same) refl, rw same at (bad_from Text fuel n t l h))

  no_mark : (c : ℕ) (k : Kind) → k ≡ eof_token → is_mark c k ≡ false
  no_mark c k e = rw e refl

  pub read_tags-Within :
      (fuel n : ℕ) (t : Text)
      → suc (length t) < fuel
      → length t ≤ n
      → Within n (read_tags scan fuel t)
  unfolding read_tags
  read_tags-Within zero n t l h = absurd (omega (arith, l))
  read_tags-Within (suc fuel) n [] l h =
      let (stop, same, w) =
        no_tag fuel n (scan []).0 (scan []).1 takes.at_eof (omega (arith, scan_le []))
          (omega (arith, scan_le [])) in
      rw (no_mark b']' (scan []).0.kind takes.at_eof, same) w
  read_tags-Within (suc fuel) n (c ∷ t) l h =
      let u = (scan (c ∷ t)).1 in
      let short : length u ≤ length t = takes.shorter c t in
      elim (Bool-cases (is_mark b']' (scan (c ∷ t)).0.kind)) [
        | inl stop ↦ rw stop (omega (arith, short, h))
        | inr go ↦ rw go (
            wider (length t) n _ (omega (arith, h)) (
              then_Within (length t) (read_tag scan fuel (scan (c ∷ t)).0 u) _
                (read_tag-Within fuel (length t) (scan (c ∷ t)).0 u (omega arith) short)
                (λ tag v k.
                  then_Within (length t) (read_tags scan fuel v) (λ (tags, w). ok (tag ∷ tags, w))
                    (read_tags-Within fuel (length t) v (omega (arith, k)) k) (λ tags w k'. k'))))
      ]
