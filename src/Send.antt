-- ===== src/Send.antt =====
-- send.go: reliable sending with acknowledgements. `Send`, the body of `readAck` (with `sendNacks` after an
-- error) and a failed read are steps of their own, as if each held the lock throughout; the loop of
-- `readAck` in fact changes the list without it. A `Send` that waits on the condition gives it up.
pub mod Window
pub mod Requests
pub mod Equations
pub mod Delivery
pub mod Faults
pub mod Rounds
pub mod Tests
use cypress.Base.{
  ℕ, zero, suc, ◌+◌, ◌-◌, ◌*◌, ◌/◌, ◌%◌, ◌^◌, Bool, true, false, Option, none, some, List, [], ◌∷◌,
  ◌++◌, reverse, length, ◌==◌, if◌then◌else◌,
}
use cypress.Base.Int.{ℤ, pos, negsuc}
use cypress.Base.Results.{Result, ok, err, Panic, divide_by_zero, slice_bounds}

-- `MinimumSendWindow`, for a delay and a rate that are not negative and a product `d * 20` that is
-- an int64; a duration is a number of nanoseconds.
pub minimum_send_window : ℕ → ℕ → Result Panic ℕ
minimum_send_window d mps =
    let t = mps / 1000 * 1_000_000 in if t == 0 then err divide_by_zero else ok (d * 20 / t)

-- `MinimumWindow`: one millisecond at the default rate.
abbrev pub minimum_window : ℕ
minimum_window = 20

-- A message that is not acknowledged yet, with the `SendRequest` to notify, if there is one.
pub record InFlight (R M : Type 0) : Type 0 where
  pub req : Option R
  pub m : M

-- What the sender of a message or the owner of the `Send` is told.
pub data Notice (R M : Type 0) : Type 0 where
  ack : R → M → Notice R M
  nack : R → M → Notice R M
  closed_down : Notice R M

-- `available` is the bit pattern of the int32. `reqs` has the front of the Go list first, and
-- `notices` the calls of `Ack`, `Nack` and `OnClosed` so far, oldest first. `wire` holds what was
-- encoded without an error, and `reading` says that `backgroundAck` still runs.
pub record Send (R M : Type 0) : Type 0 where
  pub closed : Bool
  pub window : ℕ
  pub available : ℕ
  pub reqs : List (InFlight R M)
  pub watched : Bool
  pub notices : List (Notice R M)
  pub wire : List M
  pub reading : Bool

-- What `Send` returns: nil, `ErrClosed`, or nothing yet, since it waits for an acknowledgement.
pub data Progress : Type 0 where
  done failed waiting : Progress

module _ {R M : Type 0} where
  -- `NewSend`; a buffer of negative size panics. `watched` says whether `OnClosed` is set.
  pub new_send : ℤ → Bool → Result Panic (Send R M)
  new_send window watched = elim window [
    | pos zero ↦ ok (fresh minimum_window)
    | pos (suc n) ↦ ok (fresh (suc n))
    | negsuc zero ↦ ok (fresh 1)
    | negsuc (suc n) ↦ err slice_bounds
  ]
    where
      fresh : ℕ → Send R M
      fresh w = record {
        closed = false;
        window = w;
        available = w % 2 ^ 32;
        reqs = [];
        watched = watched;
        notices = [];
        wire = [];
        reading = true;
      }

  -- The call that tells one request, if there is one to tell.
  abbrev pub notify : (R → M → Notice R M) → InFlight R M → List (Notice R M)
  notify tell f = elim f.req [ none ↦ [] | some r ↦ tell r f.m ∷ [] ]

  abbrev pub notify_all : (R → M → Notice R M) → List (InFlight R M) → List (Notice R M)
  notify_all tell [] = []
  notify_all tell (f ∷ fs) = notify tell f ++ notify_all tell fs

  -- `sendNacks`: from the back of the list, the oldest first. The list stays as it is.
  unfoldable pub send_nacks : Send R M → Send R M
  send_nacks s = if s.closed then s else record s {
    closed = true;
    notices =
        s.notices
        ++ (notify_all nack (reverse s.reqs) ++ (if s.watched then closed_down ∷ [] else []));
  }

  -- The loop of `Send` that waits: what it does when it holds the lock again.
  unfoldable pub resume : Send R M → Progress
  resume s = if s.available == 0 then (if s.closed then failed else waiting) else done

  -- `Send` up to its return or its first wait. `written` says whether the encoder takes the message.
  unfoldable pub send : Bool → Send R M → M → Option R → Send R M × Progress
  unfolding send_nacks resume
  send written s m req =
      let entry : InFlight R M = record { req = req; m = m } in
      let queued = record s {
        reqs = entry ∷ s.reqs;
        available = (s.available + 2 ^ 32 - 1) % 2 ^ 32;
      } in
      let sent = record queued { wire = s.wire ++ m ∷ [] } in
      if s.closed
      then (record s { notices = s.notices ++ notify nack entry }, failed)
      else (if written then (sent, resume sent) else (send_nacks queued, failed))

  -- `reqs.Back()` and `reqs.Remove` in one.
  unfoldable pub take_back : List (InFlight R M) → Option (InFlight R M × List (InFlight R M))
  take_back [] = none
  take_back (f ∷ fs) = elim (take_back fs) [
    | none ↦ some (f, [])
    | some (last, rest) ↦ some (last, f ∷ rest)
  ]

  -- One round of the loop of `readAck` that finds its byte good.
  unfoldable pub ack_one : Send R M → Send R M
  unfolding take_back
  ack_one s = elim (take_back s.reqs) [
    | none ↦ s
    | some (f, rest) ↦ record s { reqs = rest; notices = s.notices ++ notify ack f }
  ]

  unfoldable pub ack_times : ℕ → Send R M → Send R M
  unfolding ack_one
  ack_times zero s = s
  ack_times (suc n) s = ack_times n (ack_one s)

  -- `readAck` on the bytes of one read, and `backgroundAck` around it. Each round of the loop
  -- looks at the first byte of the buffer.
  unfoldable pub read_ack : List ℕ → Send R M → Send R M
  unfolding ack_times send_nacks
  read_ack [] s = s
  read_ack (b ∷ bs) s =
      let n = length (b ∷ bs) in
      let s' = ack_times n s in
      if s.reading
      then (if b == b'k'
          then record s' { available = (s'.available + n) % 2 ^ 32 }
          else record (send_nacks s) { reading = false })
      else s

  -- A read that fails.
  unfoldable pub read_error : Send R M → Send R M
  unfolding send_nacks
  read_error s = if s.reading then record (send_nacks s) { reading = false } else s
