-- ===== src/Glue.antt =====
-- glue.go: a generator, a filter and a receiver joined in a loop. The outside enters as values: the
-- generator as the messages that it makes and the error it ends with, the receiver as the error, if
-- any, with which it meets each message.
pub mod Stream
pub mod Tests
use cypress.Base.{ℕ, zero, suc, Bool, true, false, Option, none, some, List, [], ◌∷◌, ◌++◌}
use cypress.Base.Results.{Result, ok, err}

-- `io.EOF` is an error of its own kind.
pub data GlueError : Type 0 where
  eof : GlueError
  failure : ℕ → GlueError

pub record Generator (M : Type 0) : Type 0 where
  pub messages : List M
  pub ending : GlueError

-- What a run of the loop does, in order.
pub data Event (M : Type 0) : Type 0 where
  delivered : M → Event M
  generator_closed receiver_closed : Event M

-- An end of the stream is no error of the loop.
abbrev pub quiet : GlueError → Option GlueError
quiet eof = none
quiet (failure n) = some (failure n)

module _ {M : Type 0} where
  -- The deferred calls, the last one deferred first.
  abbrev pub deferred : List (Event M)
  deferred = generator_closed ∷ receiver_closed ∷ []

  -- `Glue` from where the messages `ms` are still to come; its events and what it returns.
  pub glue_loop : (M → Option GlueError) → List M → GlueError → List (Event M) × Option GlueError
  glue_loop receive [] ending = (deferred, quiet ending)
  glue_loop receive (m ∷ ms) ending =
      let rest = glue_loop receive ms ending in
      elim (receive m) [
        | some e ↦ (delivered m ∷ deferred, quiet e)
        | none ↦ (delivered m ∷ rest.0, rest.1)
      ]

  pub glue : Generator M → (M → Option GlueError) → List (Event M) × Option GlueError
  unfolding glue_loop
  glue gen receive = glue_loop receive gen.messages gen.ending

  -- `GlueFiltered`: a filter's error is returned as it is, and a message that it takes out is passed
  -- over.
  pub glue_filtered_loop :
      (M → Result GlueError (Option M))
      → (M → Option GlueError)
      → List M
      → GlueError
      → List (Event M) × Option GlueError
  glue_filtered_loop filter receive [] ending = (deferred, quiet ending)
  glue_filtered_loop filter receive (m ∷ ms) ending =
      let rest = glue_filtered_loop filter receive ms ending in
      elim (filter m) [
        | err e ↦ (deferred, some e)
        | ok none ↦ rest
        | ok (some m') ↦ elim (receive m') [
          | some e ↦ (delivered m' ∷ deferred, quiet e)
          | none ↦ (delivered m' ∷ rest.0, rest.1)
        ]
      ]

  pub glue_filtered :
      Generator M
      → (M → Result GlueError (Option M))
      → (M → Option GlueError)
      → List (Event M) × Option GlueError
  unfolding glue_filtered_loop
  glue_filtered gen filter receive = glue_filtered_loop filter receive gen.messages gen.ending
