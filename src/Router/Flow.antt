-- ===== src/Router/Flow.antt =====
-- Which calls reach the receivers of a route.
use cypress.Base.{
  ℕ, zero, suc, ◌+◌, ◌≡◌, refl, ap, ◌∙◌, Option, none, some, List, [], ◌∷◌, ◌++◌, arith,
}
use cypress.Base.Results.{ok, err}
use cypress.Router.{
  Call, filters, receives, Filter, written, filter_loop, receive_loop, flow_message, flow,
}

module _ {M : Type 0} where
  -- The receivers' calls of a run.
  abbrev pub received : List (Call M) → List (ℕ × M)
  received [] = []
  received (filters i msg ∷ cs) = received cs
  received (receives i m ∷ cs) = (i, m) ∷ received cs

  received-append : (cs ds : List (Call M)) → received (cs ++ ds) ≡ received cs ++ received ds
  received-append [] ds = refl
  received-append (filters i msg ∷ cs) ds = received-append cs ds
  received-append (receives i m ∷ cs) ds =
      ap (λ (t : List (ℕ × M)). (i, m) ∷ t) (received-append cs ds)

  received-filter_loop :
      (i : ℕ) (fs : List (Filter M)) (msg : Option M) → received (filter_loop i fs msg).0 ≡ []
  unfolding filter_loop
  received-filter_loop i [] msg = refl
  received-filter_loop i (f ∷ fs) msg =
      ground (arith, received-filter_loop (i + 1) fs (written f msg))

  -- What the filters write to a message: each one that is called, up to the first that fails or
  -- returns nil, that one included. What is returned besides is not looked at.
  abbrev pub rewritten : List (Filter M) → M → M
  rewritten [] m = m
  rewritten (f ∷ fs) m =
      let later = rewritten fs (f.writes m) in
      elim (f.result (some m)) [ err _ ↦ f.writes m | ok none ↦ f.writes m | ok (some _) ↦ later ]

  filter_loop-rewritten :
      (i : ℕ) (fs : List (Filter M)) (m : M) → (filter_loop i fs (some m)).1 ≡ some (rewritten fs m)
  unfolding filter_loop
  filter_loop-rewritten i [] m = refl
  filter_loop-rewritten i (f ∷ fs) m = ground (arith, filter_loop-rewritten (i + 1) fs (f.writes m))

  filter_loop-nil : (i : ℕ) (fs : List (Filter M)) → (filter_loop i fs none).1 ≡ none
  unfolding filter_loop
  filter_loop-nil i [] = refl
  filter_loop-nil i (f ∷ fs) = ground (arith, filter_loop-nil (i + 1) fs)

  -- One message for each of the receivers from the `i`-th on.
  abbrev pub fan : ℕ → ℕ → M → List (ℕ × M)
  fan i zero m = []
  fan i (suc left) m = (i, m) ∷ fan (i + 1) left m

  -- Each message that is not nil, as the filters have written to it, for each receiver.
  abbrev pub broadcast : List (Filter M) → ℕ → List (Option M) → List (ℕ × M)
  broadcast fs receivers [] = []
  broadcast fs receivers (none ∷ msgs) = broadcast fs receivers msgs
  broadcast fs receivers (some m ∷ msgs) =
      fan 0 receivers (rewritten fs m) ++ broadcast fs receivers msgs

  received-receive_loop : (i left : ℕ) (m : M) → received (receive_loop i left m) ≡ fan i left m
  unfolding receive_loop
  received-receive_loop i zero m = refl
  received-receive_loop i (suc left) m =
      ap (λ (t : List (ℕ × M)). (i, m) ∷ t) (received-receive_loop (i + 1) left m)

  flow_nil : (fs : List (Filter M)) (receivers : ℕ) → received (flow_message fs receivers none) ≡ []
  unfolding flow_message
  flow_nil fs receivers =
      received-append (filter_loop 0 fs none).0 _
      ∙ rw (received-filter_loop 0 fs none, filter_loop-nil 0 fs) refl

  flow_one :
      (fs : List (Filter M)) (receivers : ℕ) (m : M)
      → received (flow_message fs receivers (some m)) ≡ fan 0 receivers (rewritten fs m)
  unfolding flow_message
  flow_one fs receivers m =
      received-append (filter_loop 0 fs (some m)).0 _
      ∙ rw (received-filter_loop 0 fs (some m), filter_loop-rewritten 0 fs m)
          (received-receive_loop 0 receivers (rewritten fs m))

  -- For filters that may write to the message that they are given, and receivers that do not: every
  -- receiver is handed, in the order of generation, every message that is not nil, as the filters
  -- called have left it. The messages that filters return are not delivered, and a message for
  -- which a filter fails or returns nil is delivered all the same; its later filters are passed
  -- over.
  pub flow_delivers_rejected :
      (fs : List (Filter M)) (receivers : ℕ) (msgs : List (Option M))
      → received (flow fs receivers msgs) ≡ broadcast fs receivers msgs
  unfolding flow
  flow_delivers_rejected fs receivers [] = refl
  flow_delivers_rejected fs receivers (none ∷ msgs) =
      received-append (flow_message fs receivers none) (flow fs receivers msgs)
      ∙ rw (flow_nil fs receivers, flow_delivers_rejected fs receivers msgs) refl
  flow_delivers_rejected fs receivers (some m ∷ msgs) =
      received-append (flow_message fs receivers (some m)) (flow fs receivers msgs)
      ∙ rw (flow_one fs receivers m, flow_delivers_rejected fs receivers msgs) refl
