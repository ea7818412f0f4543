-- ===== src/Glue/Stream.antt =====
-- What reaches the receiver, and what is left at the end.
use cypress.Base.{◌≡◌, refl, Option, none, some, List, [], ◌∷◌, ◌++◌, arith, inl, inr, Option-cases}
use cypress.Base.Results.{Result, ok, err, Result-cases}
use cypress.Glue.{
  GlueError, Generator, Event, delivered, quiet, deferred, glue_loop, glue, glue_filtered_loop,
  glue_filtered,
}

-- What the loop returns: what stopped it, or else the generator's ending.
abbrev pub outcome : Option (Option GlueError) → GlueError → Option GlueError
outcome none ending = quiet ending
outcome (some r) ending = r

module _ {M : Type 0} where
  abbrev pub deliveries : List M → List (Event M)
  deliveries [] = []
  deliveries (m ∷ ms) = delivered m ∷ deliveries ms

  -- The first thing in the way of a run over these messages, if there is any: the messages that go
  -- through before it, and what the run returns.
  pub data Run (filter : M → Result GlueError (Option M)) (receive : M → Option GlueError)
      : List M → List M → Option (Option GlueError) → Type 0 where
    through : Run filter receive [] [] none
    takes_out :
        {m : M} {ms out : List M} {stop : Option (Option GlueError)}
        → filter m ≡ ok none
        → Run filter receive ms out stop
        → Run filter receive (m ∷ ms) out stop
    passes :
        {m m' : M} {ms out : List M} {stop : Option (Option GlueError)}
        → filter m ≡ ok (some m')
        → receive m' ≡ none
        → Run filter receive ms out stop
        → Run filter receive (m ∷ ms) (m' ∷ out) stop
    filter_fails :
        {m : M} {ms : List M} (e : GlueError)
        → filter m ≡ err e
        → Run filter receive (m ∷ ms) [] (some (some e))
    receiver_fails :
        {m m' : M} {ms : List M} (e : GlueError)
        → filter m ≡ ok (some m')
        → receive m' ≡ some e
        → Run filter receive (m ∷ ms) (m' ∷ []) (some (quiet e))

  glue_filtered_loop-Run :
      (filter : M → Result GlueError (Option M)) (receive : M → Option GlueError)
      (ending : GlueError) {ms out : List M} {stop : Option (Option GlueError)}
      → Run filter receive ms out stop
      → glue_filtered_loop filter receive ms ending
        ≡ (deliveries out ++ deferred, outcome stop ending)
  unfolding glue_filtered_loop
  glue_filtered_loop-Run filter receive ending through = refl
  glue_filtered_loop-Run filter receive ending (takes_out f r) =
      ground (arith, glue_filtered_loop-Run filter receive ending r)
  glue_filtered_loop-Run filter receive ending (passes f g r) =
      ground (arith, glue_filtered_loop-Run filter receive ending r)
  glue_filtered_loop-Run filter receive ending (filter_fails e f) = ground arith
  glue_filtered_loop-Run filter receive ending (receiver_fails e f g) = ground arith

  Run-of :
      (filter : M → Result GlueError (Option M)) (receive : M → Option GlueError) (ms : List M)
      → (out : List M) × (stop : Option (Option GlueError)) × Run filter receive ms out stop
  Run-of filter receive [] = ([], none, through)
  Run-of filter receive (m ∷ ms) =
      let (out, stop, r) = Run-of filter receive ms in
      elim (Result-cases (filter m)) [
        | inr (e, f) ↦ ([], some (some e), filter_fails e f)
        | inl (none, f) ↦ (out, stop, takes_out f r)
        | inl (some m', f) ↦ elim (Option-cases (receive m')) [
          | inl g ↦ (m' ∷ out, stop, passes f g r)
          | inr (e, g) ↦ (m' ∷ [], some (quiet e), receiver_fails e f g)
        ]
      ]

  -- Every run of `GlueFiltered` delivers what the filter passes on, in order, up to the first error
  -- of the filter or the receiver; then it closes the generator and the receiver, once each and in
  -- this order, whatever stopped it, and returns that error, but for an EOF of the generator or the
  -- receiver.
  pub glue_filtered-Run :
      (gen : Generator M) (filter : M → Result GlueError (Option M))
      (receive : M → Option GlueError)
      → (out : List M) × (stop : Option (Option GlueError)) × Run filter receive gen.messages out
          stop
        × (glue_filtered gen filter receive ≡ (deliveries out ++ deferred, outcome stop gen.ending))
  unfolding glue_filtered
  glue_filtered-Run gen filter receive =
      let (out, stop, r) = Run-of filter receive gen.messages in
      (out, stop, r, glue_filtered_loop-Run filter receive gen.ending r)

  loop_same :
      (receive : M → Option GlueError) (ms : List M) (ending : GlueError)
      → glue_loop receive ms ending ≡ glue_filtered_loop (λ m. ok (some m)) receive ms ending
  unfolding glue_loop glue_filtered_loop
  loop_same receive [] ending = refl
  loop_same receive (m ∷ ms) ending = ground (arith, loop_same receive ms ending)

  -- `Glue` is `GlueFiltered` with a filter that lets every message through.
  glue-eq-glue_filtered :
      (gen : Generator M) (receive : M → Option GlueError)
      → glue gen receive ≡ glue_filtered gen (λ m. ok (some m)) receive
  unfolding glue glue_filtered
  glue-eq-glue_filtered gen receive = loop_same receive gen.messages gen.ending
