-- ===== src/Send/Faults.antt =====
-- Where the bookkeeping of send.go gives way.
use cypress.Base.{
  ℕ, ◌+◌, ◌≡◌, refl, Bool, ◌<◌, ◌^◌, true, false, Option, some, List, [], ◌∷◌, ◌++◌, arith, length,
  if◌then◌else◌,
}
use cypress.Send.{
  Send, ack, nack, closed_down, new_send, send_nacks, done, waiting, send, resume, take_back,
  ack_one, ack_times, read_ack,
}
use cypress.Base.Int.{ℤ}
use cypress.Base.Results.{ok}
use cypress.Send.Window.{Reach, in_flight-le-window}

module _ {R M : Type 0} where
  -- From a new `Send` whose window fits the counter, after any run in which one goroutine sends and
  -- at the point where the window of an open `Send` is full: the last call of `Send` waits for credit,
  -- but a call from a second goroutine does not. Its message goes out and the call returns, and one
  -- message more than the window is in flight.
  pub send_overruns :
      (w : ℤ) (watched : Bool) (s t : Send R M) (m : M) (req : Option R)
      → new_send w watched ≡ ok s
      → s.window < 2 ^ 32
      → Reach s t
      → t.closed ≡ false
      → length t.reqs ≡ s.window
      → (resume t ≡ waiting)
        × ((send true t m req).1 ≡ done)
        × (length (send true t m req).0.reqs ≡ s.window + 1)
        × ((send true t m req).0.wire ≡ t.wire ++ m ∷ [])
  unfolding send resume
  send_overruns w watched s t m req e b r o full =
      ground (arith, in_flight-le-window w watched s t e b r)

  -- `readAck` looks at the first byte of the buffer in every round: what stands behind it in one
  -- read is taken for acknowledgements, whatever it is.
  read_ack_ignores_tail :
      (s : Send R M) (b : ℕ) (bs cs : List ℕ)
      → length bs ≡ length cs
      → read_ack (b ∷ bs) s ≡ read_ack (b ∷ cs) s
  unfolding read_ack
  read_ack_ignores_tail s b bs cs e = rw e refl

  -- After a write that fails, `sendNacks` leaves the list as it is: an acknowledgement that still
  -- comes in is passed on for a message that was handed back before.
  pub ack_after_nack :
      (s : Send R M) (m : M) (r : R)
      → s.closed ≡ false
      → s.reading ≡ true
      → s.reqs ≡ []
      → (read_ack (b'k' ∷ []) (send false s m (some r)).0).notices
        ≡ (s.notices ++ (nack r m ∷ (if s.watched then closed_down ∷ [] else []))) ++ ack r m ∷ []
  unfolding read_ack send send_nacks ack_times ack_one take_back
  ack_after_nack s m r o a e = ground arith
