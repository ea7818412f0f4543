-- ===== src/Resend/Conserved.antt =====
-- What is told to a `ReliableSend`, step by step: no message is lost or doubled.
use cypress.Base.{
  ℕ, suc, ◌+◌, ◌%◌, ◌^◌, ◌≡◌, refl, sym, ap, ◌∙◌, Bool, true, false, not, none, some, List, [], ◌∷◌,
  length, inl, inr, arith,
}
use cypress.Base.Results.{ok, err, nil_value}
use cypress.Send.{Notice, ack, nack, closed_down, send, read_ack, read_error}
use cypress.Resend.{
  Link, ReliableSend, one_less, hear, all_told, unheard, with_link, transmit, link_reads,
  link_fails, link_open,
}
use cypress.Resend.Effects.{read_ack-Effect, read_error-Effect, send-Effect}
use cypress.Resend.Balance.{counted, counted-append, acks, nacks, downs, flying, AllOurs, Effect}

one_less_lem : (o n : ℕ) → o ≡ suc n % 2 ^ 64 → one_less o ≡ n % 2 ^ 64
one_less_lem o n e = omega arith

module _ {M : Type 0} where
  abbrev pub all : M → Bool
  all m = true

  pub counted_all : (ms : List M) → counted all ms ≡ length ms
  counted_all [] = refl
  counted_all (m ∷ ms) = omega (arith, counted_all ms)

  -- What a list of calls of `Ack`, `Nack` and `onClosed` leaves behind.
  record Heard (ns : List (Notice (Unit {0}) M)) (x y : ReliableSend M) : Type 0 where
    link_kept : y.link ≡ x.link
    taken_kept : y.taken ≡ x.taken
    acked_more : (p : M → Bool) → counted p y.acked ≡ counted p x.acked + counted p (acks ns)
    nacked_more : (p : M → Bool) → counted p y.nacked ≡ counted p x.nacked + counted p (nacks ns)
    fewer :
        (n : ℕ)
        → x.outstanding ≡ (n + counted all (acks ns) + counted all (nacks ns)) % 2 ^ 64
        → y.outstanding ≡ n % 2 ^ 64
    no_signal : downs ns ≡ 0 → y.signal ≡ x.signal

  all_told-Heard :
      (ns : List (Notice (Unit {0}) M)) (x : ReliableSend M) → Heard ns x (all_told ns x)
  all_told-Heard [] x = record {
    link_kept = refl;
    taken_kept = refl;
    acked_more = λ p. omega arith;
    nacked_more = λ p. omega arith;
    fewer = λ n e. e ∙ omega arith;
    no_signal = λ d. refl;
  }
  all_told-Heard (ack r m ∷ ns) x =
      let rest = all_told-Heard ns (hear (ack r m) x) in
      record {
        link_kept = rest.link_kept;
        taken_kept = rest.taken_kept;
        acked_more = λ p. omega (arith, rest.acked_more p, counted-append p x.acked (m ∷ []));
        nacked_more = rest.nacked_more;
        fewer = λ n e. rest.fewer n (
            one_less_lem x.outstanding (n + counted all (acks ns) + counted all (nacks ns))
              (e ∙ omega arith));
        no_signal = rest.no_signal;
      }
  all_told-Heard (nack r m ∷ ns) x =
      let rest = all_told-Heard ns (hear (nack r m) x) in
      record {
        link_kept = rest.link_kept;
        taken_kept = rest.taken_kept;
        acked_more = rest.acked_more;
        nacked_more = λ p. omega (arith, rest.nacked_more p, counted-append p x.nacked (m ∷ []));
        fewer = λ n e. rest.fewer n (
            one_less_lem x.outstanding (n + counted all (acks ns) + counted all (nacks ns))
              (e ∙ omega arith));
        no_signal = rest.no_signal;
      }
  all_told-Heard (closed_down ∷ ns) x =
      let rest = all_told-Heard ns (hear closed_down x) in
      record {
        link_kept = rest.link_kept;
        taken_kept = rest.taken_kept;
        acked_more = rest.acked_more;
        nacked_more = rest.nacked_more;
        fewer = rest.fewer;
        no_signal = λ d. absurd (omega (arith, d));
      }

  abbrev pub in_flight : ReliableSend M → List M
  in_flight x = elim x.link [ none ↦ [] | some s ↦ flying s ]

  abbrev pub Ours : ReliableSend M → Type 0
  Ours x = elim x.link [ none ↦ Unit | some s ↦ AllOurs s.reqs ]

  -- `started` are counted as outstanding but not given to a connection yet, and `held` are with `reconnect`.
  pub record Sound (x : ReliableSend M) (started held : List M) : Type 0 where
    pub conserved :
        (p : M → Bool)
        → counted p x.taken
          ≡ counted p x.acked
            + counted p x.nacked
            + counted p (in_flight x)
            + counted p started
            + counted p held
    pub outstanding_lem : x.outstanding ≡ (counted all (in_flight x) + counted all started) % 2 ^ 64
    pub ours : Ours x
    pub signalled : x.signal ≡ true → link_open x ≡ false

  pub flying_of : (x : ReliableSend M) (s : Link M) → x.link ≡ some s → in_flight x ≡ flying s
  flying_of x s e = rw e

  pub open_of : (x : ReliableSend M) (s : Link M) → x.link ≡ some s → link_open x ≡ not s.closed
  open_of x s e = rw e

  pub own_requests : (x : ReliableSend M) (s : Link M) → x.link ≡ some s → AllOurs s.reqs → Ours x
  own_requests x s e h = rw e h

  requests_own : (x : ReliableSend M) (s : Link M) → x.link ≡ some s → Ours x → AllOurs s.reqs
  requests_own x s e h = rw e at h

  pub unlinked :
      (f : Link M → Link M) (x : ReliableSend M) → x.link ≡ none → with_link f x ≡ err nil_value
  unfolding with_link
  unlinked f x e = rw (with_link, e)

  -- A step of the connection that takes on what was started.
  pub with_link-Sound :
      (f : Link M → Link M) (x : ReliableSend M) (s : Link M) (started held : List M)
      → x.link ≡ some s
      → (AllOurs s.reqs → Effect (unheard s) started (f (unheard s)))
      → Sound x started held
      → (y : ReliableSend M) × (with_link f x ≡ ok y)
        × Sound y [] held
        × (y.link ≡ some (unheard (f (unheard s))))
  unfolding with_link
  with_link-Sound f x s started held e step ok_x =
      let u = f (unheard s) in
      let v : ReliableSend M = record x { link = some (unheard u) } in
      let y = all_told u.notices v in
      let h = all_told-Heard u.notices v in
      let eff = step (requests_own x s e ok_x.ours) in
      let flies : in_flight y ≡ flying u = flying_of y (unheard u) h.link_kept in
      let flew : in_flight x ≡ flying s = flying_of x s e in
      (
        y,
        (rw (with_link, e)),
        record {
          conserved = λ p. omega (
            arith,
            eff.balanced p,
            ok_x.conserved p,
            h.acked_more p,
            h.nacked_more p,
            ap (counted p) flies,
            ap (counted p) flew,
            ap (counted p) h.taken_kept,
          );
          outstanding_lem =
              h.fewer (counted all (flying u))
                (ok_x.outstanding_lem ∙ omega (arith, eff.balanced all, ap (counted all) flew))
              ∙ omega (arith, ap (counted all) flies);
          ours = own_requests y (unheard u) h.link_kept eff.ours;
          signalled = λ on. open_of y (unheard u) h.link_kept ∙ elim eff.ending [
            | inl c ↦ ap not c
            | inr (o, o', d) ↦
                let down : x.signal ≡ true = sym (h.no_signal d) ∙ on in
                let shut : true ≡ false = sym (open_of x s e ∙ ap not o) ∙ ok_x.signalled down in
                absurd (ground arith)
          ];
        },
        h.link_kept,
      )

  pub transmit-Sound :
      (written : Bool) (m : M) (x : ReliableSend M) (s : Link M) (held : List M)
      → x.link ≡ some s
      → Sound x [] (m ∷ held)
      → (y : ReliableSend M) × (transmit written m x ≡ ok y)
        × Sound y [] held
        × (y.link ≡ some (unheard (send written (unheard s) m (some tt)).0))
  unfolding transmit
  transmit-Sound written m x s held e h =
      with_link-Sound (λ t. (send written t m (some tt)).0)
        (record x { outstanding = (x.outstanding + 1) % 2 ^ 64 }) s (m ∷ []) held e
        (λ o. send-Effect written (unheard s) m o)
        (record {
          conserved = λ p. omega (arith, h.conserved p);
          outstanding_lem = omega (arith, h.outstanding_lem);
          ours = h.ours;
          signalled = h.signalled;
        })

  pub reads-Sound :
      (bs : List ℕ) (x : ReliableSend M) (s : Link M) (held : List M)
      → x.link ≡ some s
      → s.closed ≡ false
      → Sound x [] held
      → (y : ReliableSend M) × (link_reads bs x ≡ ok y)
        × Sound y [] held
        × (y.link ≡ some (unheard (read_ack bs (unheard s))))
  unfolding link_reads
  reads-Sound bs x s held e o h =
      with_link-Sound (read_ack bs) x s [] held e (λ ours. read_ack-Effect bs (unheard s) o ours) h

  pub fails-Sound :
      (x : ReliableSend M) (s : Link M) (held : List M)
      → x.link ≡ some s
      → Sound x [] held
      → (y : ReliableSend M) × (link_fails x ≡ ok y)
        × Sound y [] held
        × (y.link ≡ some (unheard (read_error (unheard s))))
  unfolding link_fails
  fails-Sound x s held e h =
      with_link-Sound read_error x s [] held e (λ ours. read_error-Effect (unheard s) ours) h
