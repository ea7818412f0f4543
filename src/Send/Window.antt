-- ===== src/Send/Window.antt =====
-- The window: with one goroutine that calls `Send` and a peer that acknowledges no more than it was
-- sent, the credit that is left and the messages in flight add up to the window.
use cypress.Base.{
  ℕ, zero, suc, ◌+◌, ◌-◌, ◌^◌, ◌≤◌, ◌<◌, ◌≡◌, ◌≢◌, refl, if◌then◌else◌, Bool, false, Option, none,
  some, List, [], ◌∷◌, arith, length, Option-cases, Bool-cases, inl, inr,
}
use cypress.Base.Int.{ℤ}
use cypress.Base.Results.{ok}
use cypress.Send.{
  Send, InFlight, done, failed, waiting, new_send, send_nacks, send, resume, take_back, ack_one,
  ack_times, read_ack, read_error,
}

module _ {R M : Type 0} where
  -- One goroutine sends, so while the `Send` is open it sends only when it does not wait for credit.
  pub data Step (s t : Send R M) : Type 0 where
    sends :
        (written : Bool) (m : M) (req : Option R)
        → (s.closed ≡ false → s.available ≢ 0)
        → t ≡ (send written s m req).0
        → Step s t
    reads : (bs : List ℕ) → length bs ≤ length s.reqs → t ≡ read_ack bs s → Step s t
    fails : t ≡ read_error s → Step s t

  pub data Reach (s : Send R M) : Send R M → Type 0 where
    here : Reach s s
    next : {t u : Send R M} → Reach s t → Step t u → Reach s u

  pub record InCredit (window : ℕ) (s : Send R M) : Type 0 where
    pub small : window < 2 ^ 32
    pub kept : s.window ≡ window
    pub balance : s.available + length s.reqs ≡ window

  take_back-length :
      (fs : List (InFlight R M))
      → (take_back fs ≡ none → fs ≡ [])
        × ((f : InFlight R M) (rest : List (InFlight R M))
            → take_back fs ≡ some (f, rest)
            → length fs ≡ suc (length rest))
  unfolding take_back
  take_back-length [] = (λ e. refl, λ f rest e. cc)
  take_back-length (g ∷ fs) = elim (Option-cases (take_back fs)) [
    | inl e ↦ let l = (take_back-length fs).0 e in (λ e'. ground arith, λ f rest e'. ground arith)
    | inr ((h, r), e) ↦
        let l = (take_back-length fs).1 h r e in (λ e'. ground arith, λ f rest e'. ground arith)
  ]

  ack_one-length :
      (s : Send R M)
      → (length (ack_one s).reqs ≡ length s.reqs - 1)
        × ((ack_one s).available ≡ s.available)
        × ((ack_one s).window ≡ s.window)
  unfolding ack_one
  ack_one-length s = elim (Option-cases (take_back s.reqs)) [
    | inl e ↦ ground (arith, (take_back-length s.reqs).0 e)
    | inr ((f, rest), e) ↦ ground (arith, (take_back-length s.reqs).1 f rest e)
  ]

  ack_times-length :
      (n : ℕ) (s : Send R M)
      → (length (ack_times n s).reqs ≡ length s.reqs - n)
        × ((ack_times n s).available ≡ s.available)
        × ((ack_times n s).window ≡ s.window)
  unfolding ack_times
  ack_times-length zero s = omega arith
  ack_times-length (suc n) s = omega (arith, ack_times-length n (ack_one s), ack_one-length s)

  send_nacks-InCredit :
      (window : ℕ) (s : Send R M) → InCredit window s → InCredit window (send_nacks s)
  unfolding send_nacks
  send_nacks-InCredit window s c = ground arith

  send-InCredit :
      (window : ℕ) (s : Send R M) (written : Bool) (m : M) (req : Option R)
      → (s.closed ≡ false → s.available ≢ 0)
      → InCredit window s
      → InCredit window (send written s m req).0
  unfolding send send_nacks
  send-InCredit window s written m req h c = elim (Bool-cases s.closed) [
    | inl shut ↦ ground arith
    | inr open_ ↦ let credit = h open_ in ground arith
  ]

  read_ack-InCredit :
      (window : ℕ) (s : Send R M) (bs : List ℕ)
      → length bs ≤ length s.reqs
      → InCredit window s
      → InCredit window (read_ack bs s)
  unfolding read_ack send_nacks
  read_ack-InCredit window s [] h c = c
  read_ack-InCredit window s (b ∷ bs) h c = ground (arith, ack_times-length (suc (length bs)) s)

  read_error-InCredit :
      (window : ℕ) (s : Send R M) → InCredit window s → InCredit window (read_error s)
  unfolding read_error send_nacks
  read_error-InCredit window s c = ground arith

  Step-InCredit : {s t : Send R M} (window : ℕ) → Step s t → InCredit window s → InCredit window t
  Step-InCredit {s} window (sends written m req h e) c =
      rw e (send-InCredit window s written m req h c)
  Step-InCredit {s} window (reads bs h e) c = rw e (read_ack-InCredit window s bs h c)
  Step-InCredit {s} window (fails e) c = rw e (read_error-InCredit window s c)

  Reach-InCredit : {s t : Send R M} (window : ℕ) → InCredit window s → Reach s t → InCredit window t
  Reach-InCredit window c here = c
  Reach-InCredit window c (next r st) = Step-InCredit window st (Reach-InCredit window c r)

  new_send-InCredit :
      (w : ℤ) (watched : Bool) (s : Send R M)
      → new_send w watched ≡ ok s
      → s.window < 2 ^ 32
      → InCredit s.window s
  unfolding new_send
  new_send-InCredit w watched s e h = ground arith

  -- From a new `Send` on, whatever is written, acknowledged or lost, the messages in flight never
  -- exceed the window, and `Send` waits, or fails as closed, exactly when they fill it.
  pub in_flight-le-window :
      (w : ℤ) (watched : Bool) (s t : Send R M)
      → new_send w watched ≡ ok s
      → s.window < 2 ^ 32
      → Reach s t
      → (t.available + length t.reqs ≡ s.window)
        × (length t.reqs ≤ s.window)
        × ((length t.reqs < s.window → resume t ≡ done)
            × (length t.reqs ≡ s.window → resume t ≡ (if t.closed then failed else waiting)))
  unfolding resume
  in_flight-le-window w watched s t e h r =
      let c = Reach-InCredit s.window (new_send-InCredit w watched s e h) r in
      (
        c.balance,
        omega (arith, c.balance),
        (λ l. ground (arith, c.balance), λ l. ground (arith, c.balance)),
      )
