-- ===== src/Send/Equations.antt =====
-- One equation for each branch of `Send`, `readAck` and `backgroundAck`.
use cypress.Base.{
  ℕ, suc, ◌+◌, ◌-◌, ◌%◌, ◌^◌, ◌==◌, ◌≡◌, refl, Bool, true, false, Option, List, [], ◌∷◌, ◌++◌,
  arith, length,
}
use cypress.Send.{Send, nack, notify, send_nacks, send, ack_times, read_ack, read_error}
use cypress.Send.Requests.{entry_of}

module _ {R M : Type 0} where
  module _ (s : Send R M) where
    pub send_written :
        (m : M) (req : Option R)
        → s.closed ≡ false
        → (send true s m req).0 ≡ record s {
          reqs = entry_of m req ∷ s.reqs;
          available = (s.available + 2 ^ 32 - 1) % 2 ^ 32;
          wire = s.wire ++ m ∷ [];
        }
    unfolding send
    send_written m req o = ground arith

    pub send_unwritten :
        (m : M) (req : Option R)
        → s.closed ≡ false
        → (send false s m req).0
          ≡ send_nacks (record s {
            reqs = entry_of m req ∷ s.reqs;
            available = (s.available + 2 ^ 32 - 1) % 2 ^ 32;
          })
    unfolding send
    send_unwritten m req o = ground arith

    pub send_refused :
        (written : Bool) (m : M) (req : Option R)
        → s.closed ≡ true
        → (send written s m req).0
          ≡ record s { notices = s.notices ++ notify nack (entry_of m req) }
    unfolding send
    send_refused written m req c = ground arith

    pub read_good :
        (b : ℕ) (bs : List ℕ)
        → s.reading ≡ true
        → (b == b'k') ≡ true
        → read_ack (b ∷ bs) s ≡ record (ack_times (suc (length bs)) s) {
          available = ((ack_times (suc (length bs)) s).available + suc (length bs)) % 2 ^ 32;
        }
    unfolding read_ack
    read_good b bs r g = ground arith

    pub read_bad :
        (b : ℕ) (bs : List ℕ)
        → s.reading ≡ true
        → (b == b'k') ≡ false
        → read_ack (b ∷ bs) s ≡ record (send_nacks s) { reading = false }
    unfolding read_ack
    read_bad b bs r g = ground arith

    pub read_nothing : read_ack [] s ≡ s
    unfolding read_ack
    read_nothing = refl

    pub read_late : (b : ℕ) (bs : List ℕ) → s.reading ≡ false → read_ack (b ∷ bs) s ≡ s
    unfolding read_ack
    read_late b bs r = ground arith

    pub error_read : s.reading ≡ true → read_error s ≡ record (send_nacks s) { reading = false }
    unfolding read_error
    error_read r = ground arith

    pub error_unread : s.reading ≡ false → read_error s ≡ s
    unfolding read_error
    error_unread r = ground arith

    pub send_nacks_again : s.closed ≡ true → send_nacks s ≡ s
    unfolding send_nacks
    send_nacks_again c = ground arith
