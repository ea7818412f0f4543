-- ===== src/Resend.antt =====
-- reliable_send.go: sending over one connection after another. A `Send` of send.go is the connection;
-- what it tells its requests is taken in at once after each of its steps, as if the lock were held.
pub mod Balance
pub mod Effects
pub mod Conserved
pub mod Runs
pub mod Again
pub mod Tests
use cypress.Base.{
  ℕ, zero, suc, ◌+◌, ◌-◌, ◌%◌, ◌^◌, Bool, true, false, not, ◌&&◌, Option, none, some, List, [], ◌∷◌,
  ◌++◌, if◌then◌else◌,
}
use cypress.Base.Results.{Result, ok, err, Panic, nil_value, ◌>>=◌}
use cypress.Send.{Send, Notice, ack, nack, closed_down, send, read_ack, read_error}

-- The connection of one `ReliableSend`, which is itself the request of all its messages.
abbrev pub Link : Type 0 → Type 0
Link M = Send (Unit {0}) M

-- `outstanding` is the bit pattern of the int, and `signal` the channel `closed`. `taken` are the messages
-- that `drain` took from `newMessages` so far, and `acked` those of the calls of `Ack`.
pub record ReliableSend (M : Type 0) : Type 0 where
  pub link : Option (Link M)
  pub outstanding : ℕ
  pub new_messages : List M
  pub signal : Bool
  pub nacked : List M
  pub shutdown : Bool
  pub taken : List M
  pub acked : List M

-- `NewReliableSend`
abbrev pub new_reliable_send : {M : Type 0} → ReliableSend M
new_reliable_send = record {
  link = none;
  outstanding = 0;
  new_messages = [];
  signal = false;
  nacked = [];
  shutdown = false;
  taken = [];
  acked = [];
}

abbrev pub one_less : ℕ → ℕ
one_less n = (n + 2 ^ 64 - 1) % 2 ^ 64

module _ {M : Type 0} where
  -- `Ack`, `Nack` and `onClosed`
  abbrev pub hear : Notice (Unit {0}) M → ReliableSend M → ReliableSend M
  hear (ack r m) x = record x { outstanding = one_less x.outstanding; acked = x.acked ++ m ∷ [] }
  hear (nack r m) x = record x { outstanding = one_less x.outstanding; nacked = x.nacked ++ m ∷ [] }
  hear closed_down x = record x { signal = true }

  abbrev pub all_told : List (Notice (Unit {0}) M) → ReliableSend M → ReliableSend M
  all_told [] x = x
  all_told (n ∷ ns) x = all_told ns (hear n x)

  abbrev pub unheard : Link M → Link M
  unheard s = record s { notices = [] }

  -- A step of the connection. Without one the code reads a nil pointer.
  unfoldable pub with_link : (Link M → Link M) → ReliableSend M → Result Panic (ReliableSend M)
  with_link f x = elim x.link [
    | none ↦ err nil_value
    | some s ↦
        ok (all_told (f (unheard s)).notices (record x { link = some (unheard (f (unheard s))) }))
  ]

  -- `outstanding++` and `r.s.Send(m, r)`
  unfoldable pub transmit : Bool → M → ReliableSend M → Result Panic (ReliableSend M)
  unfolding with_link
  transmit written m x =
      with_link (λ s. (send written s m (some tt)).0)
        (record x { outstanding = (x.outstanding + 1) % 2 ^ 64 })

  -- Bytes that the connection's own goroutine reads, and its end.
  unfoldable pub link_reads : List ℕ → ReliableSend M → Result Panic (ReliableSend M)
  unfolding with_link
  link_reads bs x = with_link (read_ack bs) x

  unfoldable pub link_fails : ReliableSend M → Result Panic (ReliableSend M)
  unfolding with_link
  link_fails x = with_link read_error x

  abbrev pub link_open : ReliableSend M → Bool
  link_open x = elim x.link [ none ↦ false | some s ↦ not s.closed ]

  -- `Receive`
  unfoldable pub enqueue : M → ReliableSend M → ReliableSend M
  enqueue m x = record x { new_messages = x.new_messages ++ m ∷ [] }

  -- The case of `drain` that takes a message.
  unfoldable pub drain_one : Bool → ReliableSend M → Result Panic (ReliableSend M)
  unfolding transmit
  drain_one written x = elim x.new_messages [
    | [] ↦ ok x
    | m ∷ ms ↦ transmit written m (record x { new_messages = ms; taken = x.taken ++ m ∷ [] })
  ]

  module _ (sorted : List M → List M) where
    -- The loop of `reconnect`. Before message number `i` the bytes `(script i).0` come in, and
    -- `(script i).1` says whether it is written: a `Send` that waits is let on by such bytes.
    unfoldable pub resend :
        (ℕ → List ℕ × Bool) → ℕ → List M → ReliableSend M → Result Panic (ReliableSend M)
    unfolding link_reads transmit
    resend script i [] x = ok x
    resend script i (m ∷ ms) x = link_reads (script i).0 x >>= λ y.
        transmit (script i).1 m y >>= λ z.
        (if link_open y && (script i).1
          then resend script (suc i) ms z
          else ok (record z { nacked = sorted (ms ++ z.nacked) }))

    -- `reconnect`, with the connection that `Connect` gives in the end, or none when it gives up
    -- because of the shutdown. The signal was taken from the channel; the old connection, which is closed first,
    -- tells nothing more.
    unfoldable pub reconnect :
        Option (Link M) → (ℕ → List ℕ × Bool) → ReliableSend M → Result Panic (ReliableSend M)
    unfolding resend
    reconnect none script x = ok (record x { signal = false })
    reconnect (some s) script x =
        resend script 0 x.nacked
          (record x { link = some (record s { watched = true }); signal = false; nacked = [] })

  -- `drain` once it is dying: what waits in `newMessages` is sent, and then the connection is closed.
  unfoldable pub drain_rest :
      (ℕ → Bool) → ℕ → List M → ReliableSend M → Result Panic (ReliableSend M)
  unfolding transmit with_link
  drain_rest written i [] x = with_link (λ s. s) (record x { new_messages = [] })
  drain_rest written i (m ∷ ms) x =
      transmit (written i) m (record x { new_messages = ms; taken = x.taken ++ m ∷ [] }) >>= λ y.
      drain_rest written (suc i) ms y

  -- `Close`: the flag, and what `drain` then does.
  unfoldable pub close : (ℕ → Bool) → ReliableSend M → Result Panic (ReliableSend M)
  unfolding drain_rest
  close written x = drain_rest written 0 x.new_messages (record x { shutdown = true })
