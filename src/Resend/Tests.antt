-- ===== src/Resend/Tests.antt =====
-- Runs of a `ReliableSend` on small inputs.
use cypress.Base.{
  ℕ, ◌+◌, ◌%◌, ◌^◌, ◌≡◌, refl, Bool, true, false, some, List, [], ◌∷◌, length, inr, arith,
}
use cypress.Base.Results.{ok, err, nil_value}
use cypress.Send.{send, read_ack, read_error}
use cypress.Resend.{
  Link, ReliableSend, new_reliable_send, link_reads, link_fails, enqueue, drain_one, reconnect,
  close,
}
use cypress.Resend.Balance.{counted}
use cypress.Resend.Conserved.{in_flight}
use cypress.Resend.Runs.{
  Run, start, next, received, reconnected, drained, fails, reads, every_message_kept,
}
use cypress.Resend.Again.{reconnect_resends}

abbrev fresh_link : Link ℕ
fresh_link = record {
  closed = false;
  window = 5;
  available = 5;
  reqs = [];
  watched = false;
  notices = [];
  wire = [];
  reading = true;
}

abbrev as_it_is : List ℕ → List ℕ
as_it_is ms = ms

abbrev quiet_script : ℕ → List ℕ × Bool
quiet_script i = ([], true)

-- Two messages are sent, the first is acknowledged, and the connection fails.
abbrev after_loss : ReliableSend ℕ
after_loss = record {
  link = some (record fresh_link {
    closed = true;
    available = 4;
    reqs = record { req = some tt; m = 8 } ∷ [];
    watched = true;
    wire = 7 ∷ 8 ∷ [];
    reading = false;
  });
  outstanding = 0;
  new_messages = [];
  signal = true;
  nacked = 8 ∷ [];
  shutdown = false;
  taken = 7 ∷ 8 ∷ [];
  acked = 7 ∷ [];
}

lossy : Run as_it_is after_loss
unfolding enqueue reconnect drain_one link_reads link_fails send read_ack read_error
lossy =
    next
      (next
        (next
          (next
            (next (next (next start (received 7)) (received 8))
              (reconnected fresh_link quiet_script (inr refl) refl refl refl))
            (drained true refl))
          (drained true refl))
        (reads (b'k' ∷ []) refl refl))
      (fails refl)

every_message_kept_example :
    ((p : ℕ → Bool)
      → counted p after_loss.taken
        ≡ counted p after_loss.acked
          + counted p after_loss.nacked
          + counted p (in_flight after_loss))
    × (after_loss.outstanding ≡ length (in_flight after_loss) % 2 ^ 64)
every_message_kept_example = every_message_kept as_it_is (λ p xs. refl) lossy

reconnect_resends_example :
    (y : ReliableSend ℕ) × (t : Link ℕ) × (reconnect as_it_is
        (some fresh_link)
        quiet_script
        after_loss
      ≡ ok y)
    × (y.link ≡ some t)
    × (t.closed ≡ false)
    × (t.wire ≡ 8 ∷ [])
    × (t.available ≡ 4)
    × (y.nacked ≡ [])
    × (y.outstanding ≡ 1)
reconnect_resends_example =
    reconnect_resends as_it_is after_loss fresh_link refl (omega arith) (omega arith) (omega arith)

-- `Close` before there was a connection.
close_unconnected : close (λ i. true) (new_reliable_send {M = ℕ}) ≡ err nil_value
unfolding close
close_unconnected = refl

-- Both messages of the queue go out, and what was kept from before does not.
close_drains :
    (r : ReliableSend ℕ) × (close
        (λ i. true)
        (record after_loss { link = some fresh_link; new_messages = 1 ∷ 2 ∷ [] })
      ≡ ok r)
    × (r.nacked ≡ 8 ∷ [])
    × (r.new_messages ≡ [])
unfolding close send
close_drains = (_, refl, refl, refl)
