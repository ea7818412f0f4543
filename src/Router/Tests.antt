-- ===== src/Router/Tests.antt =====
-- A route with a filter that adds to the message, one that replaces it, and one that drops everything.
use cypress.Base.{ℕ, ◌+◌, ◌≡◌, some, none, [], ◌∷◌}
use cypress.Base.Results.{ok}
use cypress.Router.{Filter, flow}
use cypress.Router.Flow.{received, flow_delivers_rejected}

abbrev enrich : Filter ℕ
enrich = record { writes = λ m. m + 100; result = λ msg. ok msg }

abbrev replace : Filter ℕ
replace = record { writes = λ m. m; result = λ msg. ok (some 0) }

abbrev drop_all : Filter ℕ
drop_all = record { writes = λ m. m; result = λ msg. ok none }

flow_delivers_rejected_example :
    received (flow (enrich ∷ replace ∷ drop_all ∷ enrich ∷ []) 2 (some 7 ∷ none ∷ some 8 ∷ []))
    ≡ (0, 107) ∷ (1, 107) ∷ (0, 108) ∷ (1, 108) ∷ []
flow_delivers_rejected_example =
    flow_delivers_rejected (enrich ∷ replace ∷ drop_all ∷ enrich ∷ []) 2
      (some 7 ∷ none ∷ some 8 ∷ [])
