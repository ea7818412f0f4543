-- ===== src/Spool/Reading.antt =====
-- Reading the whole spool.
use cypress.Base.{
  ℕ, zero, suc, ◌+◌, ◌≤◌, ◌<◌, ◌≡◌, refl, sym, ap, ◌∙◌, none, some, List, [], ◌∷◌, ◌++◌, arith, inl,
  inr, drop, length, length-append, append_assoc, append-nil, map, length-map,
}
use cypress.Spool.{File, Spool, flush, SpoolGenerator, generator, generate}
use cypress.Spool.Rotation.{archive, contents}
use cypress.Spool.Generating.{flat, remaining, IsReading, generate-Gives}

module _ {M : Type 0} where
  -- A reader that calls `Generate` as often as it is told, until EOF.
  pub drain : ℕ → ℕ → SpoolGenerator M → List M
  drain zero rounds g = []
  drain (suc calls) rounds g =
      let (m?, g') = generate rounds g in
      let more = drain calls rounds g' in elim m? [ none ↦ [] | some m ↦ m ∷ more ]

  drain-some :
      (calls rounds : ℕ) (g : SpoolGenerator M) (m : M)
      → (generate rounds g).0 ≡ some m
      → drain (suc calls) rounds g ≡ m ∷ drain calls rounds (generate rounds g).1
  unfolding drain
  drain-some calls rounds g m e = ground (arith, e)

  drain-none :
      (calls rounds : ℕ) (g : SpoolGenerator M)
      → (generate rounds g).0 ≡ none
      → drain (suc calls) rounds g ≡ []
  unfolding drain
  drain-none calls rounds g e = ground (arith, e)

  no_calls : (xs : List M) → length xs ≤ 0 → [] ≡ xs
  no_calls [] h = refl
  no_calls (m ∷ ms) h = absurd (omega arith)

  drain-remaining :
      (calls rounds : ℕ) (g : SpoolGenerator M)
      → IsReading g
      → length g.files ≤ rounds
      → length (remaining g) ≤ calls
      → drain calls rounds g ≡ remaining g
  drain-remaining zero rounds g r h c = unfold drain in no_calls (remaining g) c
  drain-remaining (suc calls) rounds g r h c = elim (generate-Gives rounds g r (omega arith)) [
    | inl (m, e, first, r', size) ↦
        drain-some calls rounds g m e
        ∙ ap (λ (t : List M). m ∷ t)
            (drain-remaining calls rounds (generate rounds g).1 r' (omega arith)
              (omega (arith, ap length first)))
        ∙ sym first
    | inr (e, nothing, shut) ↦ drain-none calls rounds g e ∙ sym nothing
  ]

  archive-flat :
      (fs : List (File M)) (c : List M)
      → flat (map (λ f. f.messages) fs ++ c ∷ []) ≡ archive fs ++ c
  archive-flat [] c = append-nil c
  archive-flat (f ∷ fs) c =
      ap (λ (t : List M). f.messages ++ t) (archive-flat fs c)
      ∙ sym (append_assoc f.messages (archive fs) c)

  generator-length : (s : Spool M) → length (generator s).files ≡ length s.files + 1
  unfolding generator
  generator-length s = omega (
    arith,
    length-append (map (λ f. f.messages) s.files) (s.current ∷ []),
    length-map s.files (λ (f : File M). f.messages),
  )

  first_file :
      (fs : List (List M))
      → 0 < length fs
      → (elim fs [ [] ↦ [] | f ∷ _ ↦ f ]) ++ flat (drop 1 fs) ≡ flat fs
  first_file [] h = absurd (omega arith)
  first_file (f ∷ fs) h = refl

  -- What a spool has on the disk.
  abbrev on_disk : Spool M → List M
  on_disk s = archive s.files ++ s.current

  generator-remaining :
      (s : Spool M) → (remaining (generator s) ≡ on_disk s) × IsReading (generator s)
  generator-remaining s =
      let size = generator-length s in
      let place : (generator s).current ≡ 0 = unfold generator in refl in
      (
        unfold generator in
            first_file (generator s).files (omega arith) ∙ archive-flat s.files s.current,
        (unfold generator in refl, omega arith),
      )

  flush_lem :
      (s : Spool M) → (on_disk (flush s) ≡ contents s) × (length (flush s).files ≡ length s.files)
  unfolding flush
  flush_lem s = (refl, refl)

  -- Reading a spool that was flushed gives all that it held, the oldest message first, what its
  -- encoder held back at the end, and then EOF: with a call for each message and any number of calls
  -- more, and a round of the loop for each file.
  pub drain-contents :
      (s : Spool M) (calls rounds : ℕ)
      → length (contents s) ≤ calls
      → length s.files + 1 ≤ rounds
      → drain calls rounds (generator (flush s)) ≡ contents s
  drain-contents s calls rounds h k =
      let (e, r) = generator-remaining (flush s) in
      let (whole, files) = flush_lem s in
      drain-remaining calls rounds (generator (flush s)) r
        (omega (arith, generator-length (flush s), files)) (rw (e, whole) h)
      ∙ e
      ∙ whole
