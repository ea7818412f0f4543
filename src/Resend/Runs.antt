-- ===== src/Resend/Runs.antt =====
-- Every run of a `ReliableSend` from its start, over as many connections as it takes.
use cypress.Base.{
  ℕ, suc, ◌+◌, ◌%◌, ◌^◌, ◌≡◌, refl, sym, ap, ◌∙◌, subst, Bool, true, false, not, ◌&&◌, none, some,
  List, [], ◌∷◌, ◌++◌, length, ◌⊎◌, inl, inr, Option-cases, Bool-cases, arith,
}
use cypress.Base.Results.{Result, ok, err, Panic}
use cypress.Send.{send, read_ack, read_error}
use cypress.Send.Equations.{send_written}
use cypress.Resend.{
  Link, ReliableSend, new_reliable_send, unheard, transmit, link_reads, link_fails, link_open,
  enqueue, drain_one, resend, reconnect,
}
use cypress.Resend.Balance.{counted, counted-append, flying}
use cypress.Resend.Conserved.{
  all, counted_all, in_flight, unlinked, Sound, flying_of, open_of, transmit-Sound, reads-Sound,
  fails-Sound,
}

module _ {M : Type 0} where
  written_open :
      (written : Bool) (t : Link M) (m : M)
      → written ≡ true
      → t.closed ≡ false
      → (send written t m (some tt)).0.closed ≡ false
  written_open written t m w o = rw (w, send_written t m (some tt) o) o

module _ {M : Type 0} (sorted : List M → List M) where
  -- One thing that happens: `Receive`, a round of `drain`, bytes or the end of the connection, or a reconnection,
  -- at the start or after the signal, with a connection that nothing was sent on.
  pub data Step (x : ReliableSend M) : ReliableSend M → Type 0 where
    received : (m : M) → Step x (enqueue m x)
    drained : {y : ReliableSend M} (written : Bool) → drain_one written x ≡ ok y → Step x y
    reads :
        {y : ReliableSend M} (bs : List ℕ) → link_open x ≡ true → link_reads bs x ≡ ok y → Step x y
    fails : {y : ReliableSend M} → link_fails x ≡ ok y → Step x y
    reconnected :
        {y : ReliableSend M} (s : Link M) (script : ℕ → List ℕ × Bool)
        → (x.signal ≡ true) ⊎ (x.link ≡ none)
        → s.closed ≡ false
        → s.reqs ≡ []
        → reconnect sorted (some s) script x ≡ ok y
        → Step x y
    gave_up :
        {y : ReliableSend M} (script : ℕ → List ℕ × Bool)
        → reconnect sorted none script x ≡ ok y
        → Step x y

  pub data Run : ReliableSend M → Type 0 where
    start : Run new_reliable_send
    next : {x y : ReliableSend M} → Run x → Step x y → Run y

  module _
      (same_messages : (p : M → Bool) (xs : List M) → counted p (sorted xs) ≡ counted p xs) where
    handed_back :
        (z : ReliableSend M) (ms : List M)
        → Sound z [] ms
        → Sound (record z { nacked = sorted (ms ++ z.nacked) }) [] []
    handed_back z ms h = record {
      conserved = λ p.
          omega
            (arith, h.conserved p, same_messages p (ms ++ z.nacked), counted-append p ms z.nacked);
      outstanding_lem = h.outstanding_lem;
      ours = h.ours;
      signalled = h.signalled;
    }

    resend-Sound :
        (script : ℕ → List ℕ × Bool) (i : ℕ) (ms : List M) (x : ReliableSend M) (s : Link M)
        → x.link ≡ some s
        → s.closed ≡ false
        → Sound x [] ms
        → (y : ReliableSend M) × (resend sorted script i ms x ≡ ok y) × Sound y [] []
    unfolding resend
    resend-Sound script i [] x s e o h = (x, refl, h)
    resend-Sound script i (m ∷ ms) x s e o h =
        let (y, read, hy, ly) = reads-Sound (script i).0 x s (m ∷ ms) e o h in
        let t = unheard (read_ack (script i).0 (unheard s)) in
        let (z, wrote, hz, lz) = transmit-Sound (script i).1 m y t ms ly hy in
        let opened : link_open y ≡ not t.closed = open_of y t ly in
        elim (Bool-cases (link_open y && (script i).1)) [
          | inr stop ↦ (
            record z { nacked = sorted (ms ++ z.nacked) },
            rw (resend, read, wrote, stop),
            handed_back z ms hz,
          )
          | inl go ↦
              let wr : (script i).1 ≡ true = ground arith in
              let op : t.closed ≡ false = ground arith in
              let u = unheard (send (script i).1 t m (some tt)).0 in
              let (w, again, hw) =
                resend-Sound script (suc i) ms z u lz (written_open (script i).1 t m wr op) hz in
              (w, rw (resend, read, wrote, go) again, hw)
        ]

    fresh-Sound :
        (x : ReliableSend M) (s : Link M)
        → in_flight x ≡ []
        → s.reqs ≡ []
        → Sound x [] []
        → Sound
            (record x { link = some (record s { watched = true }); signal = false; nacked = [] })
            []
            x.nacked
    fresh-Sound x s nothing new h =
        let none_yet : flying (record s { watched = true }) ≡ [] = elim (Bool-cases s.closed) [
          | inl c ↦ rw (c)
          | inr o ↦ rw (o, new)
        ] in
        record {
          conserved =
              λ p. omega (arith, h.conserved p, ap (counted p) nothing, ap (counted p) none_yet);
          outstanding_lem =
              h.outstanding_lem
              ∙ omega (arith, ap (counted all) nothing, ap (counted all) none_yet);
          ours = rw new tt;
          signalled = λ off. absurd (ground arith);
        }

    idle :
        (x : ReliableSend M)
        → Sound x [] []
        → (x.signal ≡ true) ⊎ (x.link ≡ none)
        → in_flight x ≡ []
    idle x h (inr e) = rw e
    idle x h (inl on) = elim (Option-cases x.link) [
      | inl e ↦ rw e
      | inr (s, e) ↦
          let shut : s.closed ≡ true = ground (arith, open_of x s e, h.signalled on) in
          flying_of x s e ∙ simp shut
    ]

    ok_same :
        {x y : ReliableSend M} {r : Result Panic (ReliableSend M)} → r ≡ ok x → r ≡ ok y → x ≡ y
    ok_same {x = x} a b = ap (λ r. elim r [ ok z ↦ z | err q ↦ x ]) (sym a ∙ b)

    no_ok :
        {y : ReliableSend M} {q : Panic} {r : Result Panic (ReliableSend M)}
        → r ≡ ok y
        → r ≡ err q
        → Sound y [] []
    no_ok a b = let c = sym a ∙ b in absurd (ground arith)

    settled :
        {y z : ReliableSend M} {r : Result Panic (ReliableSend M)}
        → r ≡ ok y
        → r ≡ ok z
        → Sound z [] []
        → Sound y [] []
    settled a b h = subst (λ w. Sound w [] []) (ok_same b a) h

    drain_one-Sound :
        {x y : ReliableSend M} (written : Bool) (ms : List M)
        → x.new_messages ≡ ms
        → drain_one written x ≡ ok y
        → Sound x [] []
        → Sound y [] []
    unfolding drain_one transmit
    drain_one-Sound {x = x} written [] q e h = settled e (simp (drain_one, q)) h
    drain_one-Sound {x = x} written (m ∷ ms) q e h =
        let v : ReliableSend M = record x { new_messages = ms; taken = x.taken ++ m ∷ [] } in
        let g : Sound v [] (m ∷ []) = record {
          conserved = λ p. omega (arith, h.conserved p, counted-append p x.taken (m ∷ []));
          outstanding_lem = h.outstanding_lem;
          ours = h.ours;
          signalled = h.signalled;
        } in
        let took : drain_one written x ≡ transmit written m v = rw (drain_one, q) in
        elim (Option-cases x.link) [
          | inl l ↦ no_ok (sym took ∙ e) (
              unlinked (λ t. (send written t m (some tt)).0)
                (record v { outstanding = (v.outstanding + 1) % 2 ^ 64 }) l)
          | inr (s, l) ↦
              let (z, eq, hz, lz) = transmit-Sound written m v s [] l g in
              settled (sym took ∙ e) eq hz
        ]

    step-Sound : {x y : ReliableSend M} → Step x y → Sound x [] [] → Sound y [] []
    unfolding enqueue reconnect link_fails
    step-Sound (received m) h = record {
      conserved = h.conserved;
      outstanding_lem = h.outstanding_lem;
      ours = h.ours;
      signalled = h.signalled;
    }
    step-Sound {x = x} (drained written e) h = drain_one-Sound written x.new_messages refl e h
    step-Sound {x = x} (reads bs opened e) h = elim (Option-cases x.link) [
      | inl l ↦ absurd (ground (arith, l, opened))
      | inr (s, l) ↦
          let o : s.closed ≡ false = ground (arith, open_of x s l, opened) in
          let (z, eq, hz, lz) = reads-Sound bs x s [] l o h in settled e eq hz
    ]
    step-Sound {x = x} (fails e) h = elim (Option-cases x.link) [
      | inl l ↦ no_ok e (unlinked read_error x l)
      | inr (s, l) ↦ let (z, eq, hz, lz) = fails-Sound x s [] l h in settled e eq hz
    ]
    step-Sound {x = x} (reconnected s script why o new e) h =
        let v : ReliableSend M = record x {
          link = some (record s { watched = true });
          signal = false;
          nacked = [];
        } in
        let (z, eq, hz) =
          resend-Sound script 0 x.nacked v (record s { watched = true }) refl o
            (fresh-Sound x s (idle x h why) new h) in
        settled e eq hz
    step-Sound {x = x} (gave_up script e) h = settled e refl (record {
      conserved = h.conserved;
      outstanding_lem = h.outstanding_lem;
      ours = h.ours;
      signalled = λ off. absurd (ground arith);
    })

    Run-Sound : {x : ReliableSend M} → Run x → Sound x [] []
    Run-Sound start = record {
      conserved = λ p. refl;
      outstanding_lem = refl;
      ours = tt;
      signalled = λ on. absurd (ground arith);
    }
    Run-Sound (next run step) = step-Sound step (Run-Sound run)

    -- Along every run in which each new connection is open and unused and no acknowledgement is read from a
    -- closed one, where sorting keeps the messages:
    -- every message that was taken so far is acknowledged, in flight on an open connection, or kept
    -- for the next one, exactly once, as whatever test on messages counts them; and `outstanding`
    -- is the number in flight, modulo `2 ^ 64`.
    pub every_message_kept :
        {x : ReliableSend M}
        → Run x
        → ((p : M → Bool)
            → counted p x.taken ≡ counted p x.acked + counted p x.nacked + counted p (in_flight x))
          × (x.outstanding ≡ length (in_flight x) % 2 ^ 64)
    every_message_kept {x = x} run =
        let h = Run-Sound run in
        (
          (λ p. omega (arith, h.conserved p)),
          h.outstanding_lem ∙ omega (arith, counted_all (in_flight x)),
        )
