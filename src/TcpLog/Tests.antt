-- ===== src/TcpLog/Tests.antt =====
-- Runs of the logger.
use cypress.Base.{
  ℕ, ◌+◌, ◌<◌, ◌≡◌, ◌↔◌, refl, arith, Bool, true, false, none, some, List, [], ◌∷◌, All, map,
}
use cypress.Base.Text.{Text, codes}
use cypress.TcpLog.{
  Calls, conn_text, new_logger, read_async, other, unable_to_read, read_sync, send_logs,
}
use cypress.Base.Results.{err}
use cypress.TcpLog.Ledger.{Accounts}
use cypress.TcpLog.Pump.{PumpEvent, wrote, took, run_events, IsPump, run_events-IsPump}
use cypress.TcpLog.Sending.{reaches, ending, send_logs-Accounts}
use cypress.TcpLog.Synchronous.{read_sync-broken}

abbrev plain : Text → Text
plain t = t

not_readable : read_async plain (λ (m : Text). m) new_logger other ≡ err unable_to_read
unfolding read_async
not_readable = refl

abbrev two_lines : List PumpEvent
two_lines = wrote (codes "a") ∷ took ∷ took ∷ wrote (codes "b") ∷ []

run_events-IsPump_example :
    IsPump plain (run_events plain two_lines (new_logger, [])) (codes "a" ∷ codes "b" ∷ [])
run_events-IsPump_example = run_events-IsPump plain two_lines (omega arith)

-- The second line is lost at a broken connection, and told about behind the third.
abbrev outage : List (Calls × Text)
outage =
    (record { write = true; redial = false; rewrite = false; report = true }, codes "a")
    ∷ (record { write = false; redial = true; rewrite = false; report = true }, codes "b")
    ∷ (record { write = true; redial = false; rewrite = false; report = true }, codes "c")
    ∷ (record { write = false; redial = false; rewrite = false; report = true }, codes "d")
    ∷ []

send_logs-Accounts_example :
    ((send_logs plain outage (record { sent = []; conn_dropped = 0 })).1 ≡ ending outage)
    × Accounts
        (λ k. plain (conn_text k))
        (send_logs plain outage (record { sent = []; conn_dropped = 0 })).0.sent
        (send_logs plain outage (record { sent = []; conn_dropped = 0 })).0.conn_dropped
        (codes "a" ∷ codes "b" ∷ codes "c" ∷ codes "d" ∷ [])
    × (All (λ x. reaches x.0 ≡ true) outage
        → (send_logs plain outage (record { sent = []; conn_dropped = 0 })).0.sent
          ≡ map (λ x. x.1) outage)
send_logs-Accounts_example = send_logs-Accounts plain outage (omega arith)

abbrev never : ℕ → ℕ → Text → Bool
never c t line = false

read_sync-broken_example :
    (read_sync (λ (t : ℕ). some 1) never 100 0 (some 7) (codes "a") ≡ none)
    ↔ ((k : ℕ) → k < 100 → never 7 (0 + k) (codes "a") ≡ false)
read_sync-broken_example = read_sync-broken (λ (t : ℕ). some 1) never (codes "a") 7 100 0
