-- ===== src/Send/Delivery.antt =====
-- What the requests are told: each message that was accepted is acknowledged or handed back, the
-- oldest first, and no message twice.
use cypress.Base.{ℕ, ◌≡◌, Bool, true, false, Option, List, [], ◌∷◌, ◌++◌, ◌⊎◌}
use cypress.Send.{Send, InFlight, send, read_ack, read_error}
use cypress.Send.Requests.{entry_of, IsOpen, IsShut}

module _ {R M : Type 0} where
  -- The life of a `Send`, with the messages that it accepted while it was open and those that it was
  -- given when it was closed, each oldest first. After it is closed the connection delivers no more
  -- acknowledgements.
  pub data Life (s : Send R M) : List (InFlight R M) → List (InFlight R M) → Send R M → Type 0 where
    here : Life s [] [] s
    accepts :
        {h late : List (InFlight R M)} {t : Send R M} (written : Bool) (m : M) (req : Option R)
        → Life s h late t
        → t.closed ≡ false
        → Life s (h ++ entry_of m req ∷ []) late (send written t m req).0
    refuses :
        {h late : List (InFlight R M)} {t : Send R M} (written : Bool) (m : M) (req : Option R)
        → Life s h late t
        → t.closed ≡ true
        → Life s h (late ++ entry_of m req ∷ []) (send written t m req).0
    reads :
        {h late : List (InFlight R M)} {t : Send R M} (bs : List ℕ)
        → Life s h late t
        → t.closed ≡ false
        → Life s h late (read_ack bs t)
    fails :
        {h late : List (InFlight R M)} {t : Send R M}
        → Life s h late t
        → Life s h late (read_error t)

  -- An open `Send` has refused nothing.
  abbrev pub Settled : List (InFlight R M) → List (InFlight R M) → Send R M → Type 0
  Settled h late s = (IsOpen h s × (late ≡ [])) ⊎ IsShut h late s
