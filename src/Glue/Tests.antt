-- ===== src/Glue/Tests.antt =====
-- Runs of glue.go.
use cypress.Base.{ℕ, ◌≡◌, refl, Option, some, none, List, [], ◌∷◌, ◌++◌, ◌==◌, if◌then◌else◌}
use cypress.Base.Results.{Result, ok}
use cypress.Glue.{
  GlueError, eof, Generator, delivered, generator_closed, receiver_closed, deferred, glue_filtered,
  glue_filtered_loop,
}
use cypress.Glue.Stream.{Run, deliveries, outcome, glue_filtered-Run}

abbrev three : Generator ℕ
three = record { messages = 1 ∷ 2 ∷ 3 ∷ []; ending = eof }

abbrev no_two : ℕ → Result GlueError (Option ℕ)
no_two m = if m == 2 then ok none else ok (some m)

abbrev accept : ℕ → Option GlueError
accept m = none

filtered_three :
    glue_filtered three no_two accept
    ≡ (delivered 1 ∷ delivered 3 ∷ generator_closed ∷ receiver_closed ∷ [], none)
unfolding glue_filtered glue_filtered_loop
filtered_three = refl

glue_filtered-Run_example :
    (out : List ℕ) × (stop : Option (Option GlueError)) × Run no_two accept
      (1 ∷ 2 ∷ 3 ∷ [])
      out
      stop
    × (glue_filtered three no_two accept ≡ (deliveries out ++ deferred, outcome stop eof))
glue_filtered-Run_example = glue_filtered-Run three no_two accept
