-- ===== src/Send/Requests.antt =====
-- The requests of a `Send` that is open and of one that is closed: who was told what.
use cypress.Base.{
  ℕ, zero, suc, ◌≡◌, refl, sym, ap, ◌∙◌, Bool, true, false, Option, none, some, List, [], ◌∷◌, ◌++◌,
  reverse, reverse-append, append_assoc, append-nil, reverse-cons, arith, Option-cases, inl, inr,
  if◌then◌else◌,
}
use cypress.Send.{
  Send, InFlight, Notice, ack, nack, closed_down, notify, notify_all, send_nacks, take_back,
  ack_one, ack_times,
}

module _ {R M : Type 0} where
  abbrev pub entry_of : M → Option R → InFlight R M
  entry_of m req = record { req = req; m = m }

  notify_all-append :
      (tell : R → M → Notice R M) (xs ys : List (InFlight R M))
      → notify_all tell (xs ++ ys) ≡ notify_all tell xs ++ notify_all tell ys
  notify_all-append tell [] ys = refl
  notify_all-append tell (x ∷ xs) ys =
      ap (λ (t : List (Notice R M)). notify tell x ++ t) (notify_all-append tell xs ys)
      ∙ sym (append_assoc (notify tell x) (notify_all tell xs) (notify_all tell ys))

  pub notify_all-last :
      (tell : R → M → Notice R M) (xs : List (InFlight R M)) (x : InFlight R M)
      → notify_all tell (xs ++ x ∷ []) ≡ notify_all tell xs ++ notify tell x
  notify_all-last tell xs x =
      notify_all-append tell xs (x ∷ [])
      ∙ ap (λ (t : List (Notice R M)). notify_all tell xs ++ t) (append-nil (notify tell x))

  pub take_back-none : (fs : List (InFlight R M)) → take_back fs ≡ none → fs ≡ []
  unfolding take_back
  take_back-none [] e = refl
  take_back-none (g ∷ fs) e = elim (Option-cases (take_back fs)) [
    | inl k ↦ ground arith
    | inr ((h, r), k) ↦ ground arith
  ]

  pub take_back-some :
      (fs : List (InFlight R M)) (f : InFlight R M) (rest : List (InFlight R M))
      → take_back fs ≡ some (f, rest)
      → fs ≡ rest ++ f ∷ []
  unfolding take_back
  take_back-some [] f rest e = cc
  take_back-some (g ∷ fs) f rest e = elim (Option-cases (take_back fs)) [
    | inl k ↦
        let only = take_back-none fs k in
        let er : rest ≡ [] = ground arith in let ef : f ≡ g = ground arith in rw (er, ef, only) refl
    | inr ((l, r), k) ↦
        let er : rest ≡ g ∷ r = ground arith in
        let ef : f ≡ l = ground arith in
        rw (er, ef) (ap (λ (t : List (InFlight R M)). g ∷ t) (take_back-some fs l r k))
  ]

  abbrev pub farewell : Send R M → List (Notice R M)
  farewell s = if s.watched then closed_down ∷ [] else []

  -- Open: the oldest are acknowledged, the others wait in the list.
  pub record IsOpen (h : List (InFlight R M)) (s : Send R M) : Type 0 where
    pub unclosed : s.closed ≡ false
    pub alive : s.reading ≡ true
    pub acked : List (InFlight R M)
    pub split : h ≡ acked ++ reverse s.reqs
    pub told : s.notices ≡ notify_all ack acked

  -- Closed: the oldest were acknowledged, all the others handed back, and so is each message
  -- that came `late`.
  pub record IsShut (h late : List (InFlight R M)) (s : Send R M) : Type 0 where
    pub shut : s.closed ≡ true
    pub acked : List (InFlight R M)
    pub lost : List (InFlight R M)
    pub split : h ≡ acked ++ lost
    pub told :
        s.notices
        ≡ notify_all ack acked ++ (notify_all nack lost ++ (farewell s ++ notify_all nack late))

  ack_one-IsOpen : (h : List (InFlight R M)) (s : Send R M) → IsOpen h s → IsOpen h (ack_one s)
  unfolding ack_one
  ack_one-IsOpen h s o = elim (Option-cases (take_back s.reqs)) [
    | inl e ↦ rw (e, ack_one) o
    | inr ((f, rest), e) ↦
        rw (e, ack_one)
          (record {
            unclosed = o.unclosed;
            alive = o.alive;
            acked = o.acked ++ f ∷ [];
            split =
                o.split
                ∙ ap (λ (t : List (InFlight R M)). o.acked ++ reverse t)
                    (take_back-some s.reqs f rest e)
                ∙ ap (λ (t : List (InFlight R M)). o.acked ++ t) (reverse-append rest (f ∷ []))
                ∙ sym (append_assoc o.acked (f ∷ []) (reverse rest));
            told = rw o.told (sym (notify_all-last ack o.acked f));
          })
  ]

  pub ack_times-IsOpen :
      (n : ℕ) (h : List (InFlight R M)) (s : Send R M) → IsOpen h s → IsOpen h (ack_times n s)
  unfolding ack_times
  ack_times-IsOpen zero h s o = o
  ack_times-IsOpen (suc n) h s o = ack_times-IsOpen n h (ack_one s) (ack_one-IsOpen h s o)

  -- Closing hands back all that is in flight.
  pub send_nacks-IsShut :
      (h : List (InFlight R M)) (s : Send R M) → IsOpen h s → IsShut h [] (send_nacks s)
  unfolding send_nacks
  send_nacks-IsShut h s o =
      rw (o.unclosed, send_nacks)
        (record {
          shut = refl;
          acked = o.acked;
          lost = reverse s.reqs;
          split = o.split;
          told = rw (o.told, append-nil (farewell s)) refl;
        })

  -- A field that the requests do not see may change.
  pub reading-IsShut :
      (h late : List (InFlight R M)) (s : Send R M) (b : Bool)
      → IsShut h late s
      → IsShut h late (record s { reading = b })
  reading-IsShut h late s b c = record {
    shut = c.shut;
    acked = c.acked;
    lost = c.lost;
    split = c.split;
    told = c.told;
  }

  pub queued-IsOpen :
      (h : List (InFlight R M)) (s : Send R M) (f : InFlight R M) (a : ℕ) (w : List M)
      → IsOpen h s
      → IsOpen (h ++ f ∷ []) (record s { reqs = f ∷ s.reqs; available = a; wire = w })
  queued-IsOpen h s f a w o = record {
    unclosed = o.unclosed;
    alive = o.alive;
    acked = o.acked;
    split =
        ap (λ (t : List (InFlight R M)). t ++ f ∷ []) o.split
        ∙ append_assoc o.acked (reverse s.reqs) (f ∷ [])
        ∙ ap (λ (t : List (InFlight R M)). o.acked ++ t) (sym (reverse-cons f s.reqs));
    told = o.told;
  }
