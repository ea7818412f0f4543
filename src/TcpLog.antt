-- ===== src/TcpLog.antt =====
-- plugins/lib/tcplog/tcplog.go: the logger with its bounded pump. What `Format` makes of a log message with a
-- text under the key "error" is a parameter.
pub mod Ledger
pub mod Pump
pub mod Sending
pub mod Synchronous
pub mod Tests
use cypress.Base.{
  ℕ, zero, suc, ◌+◌, ◌-◌, ◌%◌, ◌^◌, Bool, true, false, Option, none, some, List, [], ◌∷◌, ◌++◌,
  length, ltb, ◌==◌, if◌then◌else◌,
}
use cypress.Base.Text.{Text, codes}
use cypress.Base.Decimal.{decimal}
use cypress.Base.Results.{Result, ok, err}

-- `cBufferSize`
abbrev pub buffer_size : ℕ
buffer_size = 100

-- What may be handed to `Read` and `ReadAsync`.
pub data Readable (M : Type 0) : Type 0 where
  bytes : Text → Readable M
  text : Text → Readable M
  message : M → Readable M
  other : Readable M

pub data LogError : Type 0 where
  unable_to_read pump_is_closed : LogError

-- The bytes of it; an error of `Format` is not looked at.
abbrev pub data_of : {M : Type 0} → (M → Text) → Readable M → Result LogError Text
data_of format (bytes b) = ok b
data_of format (text t) = ok t
data_of format (message m) = ok (format m)
data_of format other = err unable_to_read

-- `Logger` as its two ends share it, without the connection.
pub record Logger : Type 0 where
  pub pump : List Text
  pub pump_closed : Bool
  pub pump_dropped : ℕ
  pub conn_dropped : ℕ

-- `NewLogger`
abbrev pub new_logger : Logger
new_logger = record { pump = []; pump_closed = false; pump_dropped = 0; conn_dropped = 0 }

unfoldable pub pump_text : ℕ → Text
pump_text n = codes "The tcplog pump dropped " ++ (decimal n ++ codes " log lines")

unfoldable pub conn_text : ℕ → Text
conn_text n = codes "The tcplog connection dropped " ++ (decimal n ++ codes " log lines")

-- `cleanup`, which is also `Close`.
unfoldable pub cleanup : Logger → Logger
cleanup l = record l { pump_closed = true }

-- The receiving end of the channel `Pump`: the next line, if there is one.
unfoldable pub take_line : Logger → Option (Text × Logger)
take_line l = elim l.pump [ [] ↦ none | x ∷ xs ↦ some (x, record l { pump = xs }) ]

module _ (format_error : Text → Text) where
  -- `writeAsync`: the line is put into the pump if it has room, and behind it what the pump has
  -- dropped; otherwise it is dropped and counted.
  unfoldable pub write_async : Logger → Text → Result LogError Logger
  write_async l line =
      let queued = record l { pump = l.pump ++ line ∷ [] } in
      let report = format_error (pump_text l.pump_dropped) in
      let told = record l {
        pump = l.pump ++ line ∷ [] ++ report ∷ [];
        pump_dropped = (l.pump_dropped + 2 ^ 64 - l.pump_dropped) % 2 ^ 64;
      } in
      if l.pump_closed
      then err pump_is_closed
      else (if ltb (length l.pump) buffer_size
          then (if ltb 0 l.pump_dropped
              then (if ltb (length l.pump + 1) buffer_size then ok told else ok queued)
              else ok queued)
          else ok (record l { pump_dropped = (l.pump_dropped + 1) % 2 ^ 64 }))

  -- `ReadAsync`
  unfoldable pub read_async :
      {M : Type 0} → (M → Text) → Logger → Readable M → Result LogError Logger
  unfolding write_async
  read_async format l m = elim (data_of format m) [ err e ↦ err e | ok line ↦ write_async l line ]

-- How the calls on the network turn out while one line is sent: the write, the dial and the write
-- after a failure, and the write of a report.
pub record Calls : Type 0 where
  pub write : Bool
  pub redial : Bool
  pub rewrite : Bool
  pub report : Bool

-- What the loop of `sendLogs` does next. After a dial that failed it closes a connection that is nil.
pub data Next : Type 0 where
  next_line dial_again nil_connection : Next

-- What was written in full, and `ConnDropped`.
pub record Sink : Type 0 where
  pub sent : List Text
  pub conn_dropped : ℕ

module _ (format_error : Text → Text) where
  unfoldable pub report_dropped : Bool → Sink → Sink
  report_dropped works s =
      if ltb 0 s.conn_dropped
      then (if works
          then record s {
            sent = s.sent ++ format_error (conn_text s.conn_dropped) ∷ [];
            conn_dropped = (s.conn_dropped + 2 ^ 64 - s.conn_dropped) % 2 ^ 64;
          }
          else s)
      else s

  abbrev pub line_written : Sink → Text → Sink
  line_written s line = record s { sent = s.sent ++ line ∷ [] }

  abbrev pub line_dropped : Sink → Sink
  line_dropped s = record s { conn_dropped = (s.conn_dropped + 1) % 2 ^ 64 }

  -- One line of the loop of `sendLogs`.
  unfoldable pub send_line : Calls → Sink → Text → Sink × Next
  unfolding report_dropped
  send_line c s line =
      if c.write
      then (report_dropped c.report (line_written s line), next_line)
      else (if c.redial
          then (if c.rewrite
              then (report_dropped c.report (line_written s line), next_line)
              else (line_dropped s, dial_again))
          else (line_dropped s, nil_connection))

  -- `sendLogs` on the lines that come out of the pump. To dial again takes time and changes nothing
  -- else, since it is tried until it works.
  unfoldable pub send_logs : List (Calls × Text) → Sink → Sink × Next
  unfolding send_line
  send_logs [] s = (s, next_line)
  send_logs ((c, line) ∷ rest) s =
      let (s', n) = send_line c s line in
      let more = send_logs rest s' in
      elim n [ next_line ↦ more | dial_again ↦ more | nil_connection ↦ (s', nil_connection) ]

-- `Read`: it dials until there is a connection, and writes until a write works. What the calls number
-- `t` of each kind do is a parameter; `none` is a call that has not returned after the rounds given.
module _ {C : Type 0} (dial : ℕ → Option C) (write : C → ℕ → Text → Bool) where
  unfoldable pub read_sync : ℕ → ℕ → Option C → Text → Option C
  read_sync zero t conn line = none
  read_sync (suc rounds) t none line = read_sync rounds (t + 1) (dial t) line
  read_sync (suc rounds) t (some c) line =
      let again = read_sync rounds (t + 1) (some c) line in if write c t line then some c else again
