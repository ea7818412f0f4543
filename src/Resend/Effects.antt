-- ===== src/Resend/Effects.antt =====
-- What each step of a connection does with its messages.
use cypress.Base.{
  ℕ, zero, suc, ◌+◌, ◌-◌, ◌%◌, ◌^◌, ◌≡◌, refl, ap, ◌∙◌, Bool, true, false, some, List, [], ◌∷◌,
  ◌++◌, reverse, reverse-cons, ◌==◌, length, inl, inr, Option-cases, Bool-cases, arith,
}
use cypress.Send.{
  InFlight, Notice, ack, nack, notify, notify_all, send_nacks, send, take_back, ack_one, ack_times,
  read_ack, read_error,
}
use cypress.Send.Requests.{entry_of, take_back-some, farewell, notify_all-last}
use cypress.Send.Equations.{
  send_written, send_unwritten, send_refused, read_good, read_bad, read_nothing, read_late,
  error_read, error_unread, send_nacks_again,
}
use cypress.Resend.{Link}
use cypress.Resend.Balance.{
  counted, counted-append, told_count, told_count-append, downs-append, messages, AllOurs,
  weight_open, weight_shut, messages-append, Effect,
}

module _ {M : Type 0} where
  AllOurs-front :
      (xs : List (InFlight (Unit {0}) M)) (f : InFlight (Unit {0}) M)
      → AllOurs (xs ++ f ∷ [])
      → AllOurs xs × (f.req ≡ some tt)
  AllOurs-front [] f (h, k) = (tt, h)
  AllOurs-front (x ∷ xs) f (h, hs) = let (a, b) = AllOurs-front xs f hs in ((h, a), b)

  notify_ours :
      (tell : Unit {0} → M → Notice (Unit {0}) M) (f : InFlight (Unit {0}) M)
      → f.req ≡ some tt
      → notify tell f ≡ tell tt f.m ∷ []
  notify_ours tell f e = rw (notify, e)

  nacks_counted :
      (p : M → Bool) (fs : List (InFlight (Unit {0}) M))
      → AllOurs fs
      → told_count p (notify_all nack (reverse fs)) ≡ counted p (messages fs)
  nacks_counted p [] h = refl
  nacks_counted p (f ∷ fs) (h, hs) =
      let whole : notify_all nack (reverse (f ∷ fs))
          ≡ notify_all nack (reverse fs) ++ nack tt f.m ∷ [] =
        rw (reverse-cons f fs, notify_all-last nack (reverse fs) f, notify_ours nack f h) in
      rw whole (
        omega (
          arith,
          told_count-append p (notify_all nack (reverse fs)) (nack tt f.m ∷ []),
          nacks_counted p fs hs,
        ))

  farewell_count : (p : M → Bool) (t : Link M) → told_count p (farewell t) ≡ 0
  farewell_count p t = elim (Bool-cases t.watched) [ inl e ↦ simp e | inr e ↦ simp e ]

  still_Effect : (t : Link M) → t.closed ≡ false → AllOurs t.reqs → Effect t [] t
  still_Effect t o h = record { balanced = λ p. omega arith; ours = h; ending = inr (o, o, refl) }

  pub ack_one-Effect : (t : Link M) → t.closed ≡ false → AllOurs t.reqs → Effect t [] (ack_one t)
  unfolding ack_one
  ack_one-Effect t o h = elim (Option-cases (take_back t.reqs)) [
    | inl e ↦ rw (e, ack_one) (still_Effect t o h)
    | inr ((f, rest), e) ↦
        let split = take_back-some t.reqs f rest e in
        let (others, mine) = AllOurs-front rest f (rw split at h) in
        rw (e, ack_one, notify_ours ack f mine)
          (record {
            balanced = λ p. omega (
              arith,
              weight_open p t o,
              weight_open p (record t { reqs = rest; notices = t.notices ++ ack tt f.m ∷ [] }) o,
              told_count-append p t.notices (ack tt f.m ∷ []),
              ap (λ fs. counted p (messages fs)) split,
              messages-append p rest (f ∷ []),
            );
            ours = others;
            ending = inr (o, o, omega (arith, downs-append t.notices (ack tt f.m ∷ [])));
          })
  ]

  ack_one-closed : (t : Link M) → (ack_one t).closed ≡ t.closed
  unfolding ack_one
  ack_one-closed t = elim (Option-cases (take_back t.reqs)) [
    | inl e ↦ rw (e, ack_one)
    | inr ((f, rest), e) ↦ rw (e, ack_one)
  ]

  then_Effect :
      (t u v : Link M) (xs ys : List M) → Effect t xs u → Effect u ys v → Effect t (xs ++ ys) v
  then_Effect t u v xs ys a b = record {
    balanced = λ p. omega (arith, a.balanced p, b.balanced p, counted-append p xs ys);
    ours = b.ours;
    ending = elim b.ending [
      | inl c ↦ inl c
      | inr (uo, vo, d) ↦ elim a.ending [
        | inl c ↦ absurd (ground arith)
        | inr (to, uo', d') ↦ inr (to, vo, d ∙ d')
      ]
    ];
  }

  pub ack_times-Effect :
      (n : ℕ) (t : Link M) → t.closed ≡ false → AllOurs t.reqs → Effect t [] (ack_times n t)
  unfolding ack_times
  ack_times-Effect zero t o h = still_Effect t o h
  ack_times-Effect (suc n) t o h =
      let one = ack_one-Effect t o h in
      then_Effect t (ack_one t) (ack_times n (ack_one t)) [] [] one
        (ack_times-Effect n (ack_one t) (ack_one-closed t ∙ o) one.ours)

  pub send_nacks-Effect :
      (t : Link M) → t.closed ≡ false → AllOurs t.reqs → Effect t [] (send_nacks t)
  unfolding send_nacks
  send_nacks-Effect t o h =
      let u : Link M = record t {
        closed = true;
        notices = t.notices ++ (notify_all nack (reverse t.reqs) ++ farewell t);
      } in
      let e : send_nacks t ≡ u = simp (send_nacks, o) in
      rw e (record {
        balanced = λ p. omega (
          arith,
          weight_open p t o,
          weight_shut p u refl,
          told_count-append p t.notices (notify_all nack (reverse t.reqs) ++ farewell t),
          told_count-append p (notify_all nack (reverse t.reqs)) (farewell t),
          nacks_counted p t.reqs h,
          farewell_count p t,
        );
        ours = h;
        ending = inl refl;
      })

  -- Fields that the messages do not see may change.
  aside_Effect :
      (t u : Link M) (added : List M) (n : ℕ) (w : List M) (b : Bool)
      → Effect t added u
      → Effect t added (record u { available = n; wire = w; reading = b })
  aside_Effect t u added n w b e = record {
    balanced = e.balanced;
    ours = e.ours;
    ending = e.ending;
  }

  pub read_ack-Effect :
      (bs : List ℕ) (t : Link M) → t.closed ≡ false → AllOurs t.reqs → Effect t [] (read_ack bs t)
  read_ack-Effect [] t o h = rw (read_nothing t) (still_Effect t o h)
  read_ack-Effect (b ∷ bs) t o h = elim (Bool-cases t.reading) [
    | inr off ↦ rw (read_late t b bs off) (still_Effect t o h)
    | inl on ↦ elim (Bool-cases (b == b'k')) [
      | inl good ↦
          let u = ack_times (suc (length bs)) t in
          rw (read_good t b bs on good) (
            aside_Effect t u [] ((u.available + suc (length bs)) % 2 ^ 32) u.wire u.reading
              (ack_times-Effect (suc (length bs)) t o h))
      | inr bad ↦
          let u = send_nacks t in
          rw (read_bad t b bs on bad)
            (aside_Effect t u [] u.available u.wire false (send_nacks-Effect t o h))
    ]
  ]

  same_Effect : (t : Link M) → AllOurs t.reqs → Effect t [] t
  same_Effect t h = elim (Bool-cases t.closed) [
    | inl c ↦ record { balanced = λ p. omega arith; ours = h; ending = inl c }
    | inr o ↦ still_Effect t o h
  ]

  -- A second `sendNacks` tells nobody.
  any_send_nacks-Effect : (t : Link M) → AllOurs t.reqs → Effect t [] (send_nacks t)
  any_send_nacks-Effect t h = elim (Bool-cases t.closed) [
    | inl c ↦ rw (send_nacks_again t c) (same_Effect t h)
    | inr o ↦ send_nacks-Effect t o h
  ]

  pub read_error-Effect : (t : Link M) → AllOurs t.reqs → Effect t [] (read_error t)
  read_error-Effect t h = elim (Bool-cases t.reading) [
    | inr off ↦ rw (error_unread t off) (same_Effect t h)
    | inl on ↦
        let u = send_nacks t in
        rw (error_read t on)
          (aside_Effect t u [] u.available u.wire false (any_send_nacks-Effect t h))
  ]

  queued_Effect :
      (t : Link M) (m : M) (n : ℕ) (w : List M)
      → t.closed ≡ false
      → AllOurs t.reqs
      → Effect t
          (m ∷ [])
          (record t { reqs = entry_of m (some tt) ∷ t.reqs; available = n; wire = w })
  queued_Effect t m n w o h = record {
    balanced = λ p. omega (
      arith,
      weight_open p t o,
      weight_open p (record t { reqs = entry_of m (some tt) ∷ t.reqs; available = n; wire = w }) o,
    );
    ours = (refl, h);
    ending = inr (o, o, refl);
  }

  pub send-Effect :
      (written : Bool) (t : Link M) (m : M)
      → AllOurs t.reqs
      → Effect t (m ∷ []) (send written t m (some tt)).0
  send-Effect written t m h = elim (Bool-cases t.closed) [
    | inl shut ↦
        let u : Link M = record t { notices = t.notices ++ notify nack (entry_of m (some tt)) } in
        rw (send_refused t written m (some tt) shut) (record {
          balanced = λ p. omega (
            arith,
            weight_shut p t shut,
            weight_shut p u shut,
            told_count-append p t.notices (nack tt m ∷ []),
          );
          ours = h;
          ending = inl shut;
        })
    | inr o ↦ open_send written o
  ]
    where
      open_send :
          (written : Bool) → t.closed ≡ false → Effect t (m ∷ []) (send written t m (some tt)).0
      open_send true o = rw (send_written t m (some tt) o) (queued_Effect t m _ _ o h)
      open_send false o =
          let n = (t.available + 2 ^ 32 - 1) % 2 ^ 32 in
          let q : Link M = record t { reqs = entry_of m (some tt) ∷ t.reqs; available = n } in
          let e = queued_Effect t m n t.wire o h in
          rw (send_unwritten t m (some tt) o)
            (then_Effect t q (send_nacks q) (m ∷ []) [] e (send_nacks-Effect q o e.ours))
