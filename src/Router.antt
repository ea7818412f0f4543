-- ===== src/Router.antt =====
-- router/router.go: what `Route.Flow` does with one message.
pub mod Flow
pub mod Tests
use cypress.Base.{ℕ, zero, suc, ◌+◌, Bool, true, false, Option, none, some, List, [], ◌∷◌, ◌++◌}
use cypress.Base.Results.{Result, ok, err}

-- A call of a filter or a receiver of the route, by its place in the route.
pub data Call (M : Type 0) : Type 0 where
  filters : ℕ → Option M → Call M
  receives : ℕ → M → Call M

-- `Filterer.Filter`. Messages are pointers, so that nil is one of them, and a filter may write to the
-- message that it is given: what it leaves there, and what it returns, which is a message, nil or
-- an error.
pub record Filter (M : Type 0) : Type 0 where
  pub writes : M → M
  pub result : Option M → Result (Unit {0}) (Option M)

-- The message that was given to a filter, after the call; nil stays nil.
abbrev pub written : {M : Type 0} → Filter M → Option M → Option M
written f none = none
written f (some m) = some (f.writes m)

module _ {M : Type 0} where
  -- `for _, filt := range r.filters`, and the message that it leaves. The `msg` that the body declares
  -- is a variable of its own: each filter gets the outer one, as the filters before have left it,
  -- and its result decides only whether the loop goes on.
  pub filter_loop : ℕ → List (Filter M) → Option M → List (Call M) × Option M
  filter_loop i [] msg = ([], msg)
  filter_loop i (f ∷ fs) msg =
      let left = written f msg in
      let (calls, last) = filter_loop (i + 1) fs left in
      elim (f.result msg) [
        | err _ ↦ (filters i msg ∷ [], left)
        | ok none ↦ (filters i msg ∷ [], left)
        | ok (some _) ↦ (filters i msg ∷ calls, last)
      ]

  -- `for _, recv := range r.receivers`; an error is logged only. The number is that of the receivers.
  -- No receiver writes to the message.
  pub receive_loop : ℕ → ℕ → M → List (Call M)
  receive_loop i zero msg = []
  receive_loop i (suc left) msg = receives i msg ∷ receive_loop (i + 1) left msg

  -- The body of `for msg := range c`.
  pub flow_message : List (Filter M) → ℕ → Option M → List (Call M)
  unfolding filter_loop receive_loop
  flow_message fs receivers msg =
      let (calls, last) = filter_loop 0 fs msg in
      calls ++ elim last [ none ↦ [] | some m ↦ receive_loop 0 receivers m ]

  pub flow : List (Filter M) → ℕ → List (Option M) → List (Call M)
  unfolding flow_message
  flow fs receivers [] = []
  flow fs receivers (msg ∷ msgs) = flow_message fs receivers msg ++ flow fs receivers msgs
