-- ===== src/Send/Tests.antt =====
-- A `Send` with a window of two.
use cypress.Base.{
  ℕ, ◌≡◌, ◌≤◌, ◌<◌, ◌+◌, refl, some, none, true, false, List, [], ◌∷◌, ◌++◌, length, arith,
  if◌then◌else◌,
}
use cypress.Base.Int.{pos}
use cypress.Base.Results.{ok}
use cypress.Send.{
  InFlight, Send, done, failed, waiting, ack, nack, closed_down, new_send, send_nacks, send, resume,
  read_ack, ack_times, ack_one, take_back, read_error,
}
use cypress.Send.Requests.{entry_of}
use cypress.Send.Window.{Reach, Step, in_flight-le-window}
use cypress.Send.Faults.{send_overruns, ack_after_nack}

abbrev fresh_two : Send ℕ ℕ
fresh_two = record {
  closed = false;
  window = 2;
  available = 2;
  reqs = [];
  watched = true;
  notices = [];
  wire = [];
  reading = true;
}

new_two : new_send (pos 2) true ≡ ok fresh_two
unfolding new_send
new_two = refl

-- Two messages go out, one is acknowledged, and the connection breaks.
abbrev sent_one : Send ℕ ℕ
sent_one = (send true fresh_two 31 (some 1)).0

abbrev sent_two : Send ℕ ℕ
sent_two = (send true sent_one 32 (some 2)).0

abbrev acked_one : Send ℕ ℕ
acked_one = read_ack (b'k' ∷ []) sent_two

abbrev broken : Send ℕ ℕ
broken = read_error acked_one

abbrev both : List (InFlight ℕ ℕ)
both = entry_of 31 (some 1) ∷ entry_of 32 (some 2) ∷ []

broken_notices : broken.notices ≡ ack 1 31 ∷ nack 2 32 ∷ closed_down ∷ []
unfolding send read_ack ack_times ack_one take_back read_error send_nacks
broken_notices = refl

-- A message too late is handed back behind the others.
abbrev too_late : Send ℕ ℕ
too_late = (send true broken 33 (some 3)).0

abbrev refused : List (InFlight ℕ ℕ)
refused = entry_of 33 (some 3) ∷ []

sent_two-Reach : Reach fresh_two sent_two
unfolding send
sent_two-Reach =
    Reach.next (Reach.next Reach.here (Step.sends true 31 (some 1) (λ o e. omega (arith, e)) refl))
      (Step.sends true 32 (some 2) (λ o e. omega (arith, e)) refl)

in_flight-le-window_example :
    (sent_two.available + length sent_two.reqs ≡ 2)
    × (length sent_two.reqs ≤ 2)
    × ((length sent_two.reqs < 2 → resume sent_two ≡ done)
        × (length sent_two.reqs ≡ 2
            → resume sent_two ≡ (if sent_two.closed then failed else waiting)))
in_flight-le-window_example =
    in_flight-le-window (pos 2) true fresh_two sent_two new_two (omega arith) sent_two-Reach

sent_two_open : sent_two.closed ≡ false
unfolding send
sent_two_open = refl

sent_two_full : length sent_two.reqs ≡ 2
unfolding send
sent_two_full = refl

send_overruns_example :
    (resume sent_two ≡ waiting)
    × ((send true sent_two 33 none).1 ≡ done)
    × (length (send true sent_two 33 none).0.reqs ≡ 2 + 1)
    × ((send true sent_two 33 none).0.wire ≡ sent_two.wire ++ 33 ∷ [])
send_overruns_example =
    send_overruns (pos 2) true fresh_two sent_two 33 none new_two (omega arith) sent_two-Reach
      sent_two_open sent_two_full

ack_after_nack_example :
    (read_ack (b'k' ∷ []) (send false fresh_two 34 (some 5)).0).notices
    ≡ nack 5 34 ∷ closed_down ∷ ack 5 34 ∷ []
ack_after_nack_example = ack_after_nack fresh_two 34 5 refl refl refl
