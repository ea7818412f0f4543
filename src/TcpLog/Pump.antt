-- ===== src/TcpLog/Pump.antt =====
-- The pump of the logger, for any order of calls of `ReadAsync` and of lines taken out.
use cypress.Base.{
  ℕ, suc, ◌+◌, ◌-◌, ◌%◌, ◌^◌, ◌≤◌, ◌<◌, ◌≡◌, refl, sym, ap, ◌∙◌, Bool, true, false, none, some,
  List, [], ◌∷◌, ◌++◌, length, ltb, ◌&&◌, arith, Bool-cases, inl, inr, append_assoc, length-append,
  append-nil,
}
use cypress.Base.Text.{Text}
use cypress.Base.Results.{ok, err}
use cypress.TcpLog.{Logger, new_logger, take_line, write_async, pump_text, buffer_size}
use cypress.TcpLog.Ledger.{
  Accounts, line-Accounts, report-Accounts, drop-Accounts, count_le, new-Accounts,
}

-- A line is handed to the logger, or its other end takes a line.
pub data PumpEvent : Type 0 where
  wrote : Text → PumpEvent
  took : PumpEvent

-- The lines that are handed over.
abbrev pub handed : List PumpEvent → List Text
handed [] = []
handed (wrote t ∷ es) = t ∷ handed es
handed (took ∷ es) = handed es

module _ (format_error : Text → Text) where
  -- A call of `writeAsync`, or a line that goes from the pump to the connection, if there is one.
  abbrev pub event_step : PumpEvent → Logger × List Text → Logger × List Text
  event_step (wrote t) (l, out) = elim (write_async format_error l t) [
    | ok l' ↦ (l', out)
    | err e ↦ (l, out)
  ]
  event_step took (l, out) = elim (take_line l) [
    | none ↦ (l, out)
    | some (x, l') ↦ (l', out ++ x ∷ [])
  ]

  abbrev pub run_events : List PumpEvent → Logger × List Text → Logger × List Text
  run_events [] s = s
  run_events (e ∷ es) s = run_events es (event_step e s)

  abbrev report_text : ℕ → Text
  report_text n = format_error (pump_text n)

  -- The pump is open and not overfull, and the lines that came out of it and those in it account, with
  -- `PumpDropped`, for the lines that were handed over. Of no more lines than the pump holds none is
  -- dropped.
  pub record IsPump (s : Logger × List Text) (given : List Text) : Type 0 where
    pub open_ : s.0.pump_closed ≡ false
    pub room : length s.0.pump ≤ buffer_size
    pub lines : Accounts (λ k. format_error (pump_text k)) (s.1 ++ s.0.pump) s.0.pump_dropped given
    pub kept : length given ≤ buffer_size → (s.0.pump_dropped ≡ 0) × (s.1 ++ s.0.pump ≡ given)

  write_full :
      (l : Logger) (t : Text)
      → l.pump_closed ≡ false
      → ltb (length l.pump) buffer_size ≡ false
      → l.pump_dropped < 2 ^ 64 - 1
      → write_async format_error l t ≡ ok (record l { pump_dropped = suc l.pump_dropped })
  unfolding write_async
  write_full l t o h b =
      let wrap : (l.pump_dropped + 1) % 2 ^ 64 ≡ suc l.pump_dropped = omega arith in
      rw (write_async, o, h, wrap)

  write_told :
      (l : Logger) (t : Text)
      → l.pump_closed ≡ false
      → ltb (length l.pump) buffer_size ≡ true
      → (ltb 0 l.pump_dropped && ltb (length l.pump + 1) buffer_size) ≡ true
      → l.pump_dropped < 2 ^ 64
      → write_async format_error l t
        ≡ ok (record l {
          pump = l.pump ++ t ∷ [] ++ report_text l.pump_dropped ∷ [];
          pump_dropped = 0;
        })
  unfolding write_async
  write_told l t o h k b =
      let wrap : (l.pump_dropped + 2 ^ 64 - l.pump_dropped) % 2 ^ 64 ≡ 0 = omega arith in
      let some_lost : ltb 0 l.pump_dropped ≡ true = ground arith in
      let more_room : ltb (length l.pump + 1) buffer_size ≡ true = ground arith in
      rw (write_async, o, h, some_lost, more_room, wrap)

  write_kept :
      (l : Logger) (t : Text)
      → l.pump_closed ≡ false
      → ltb (length l.pump) buffer_size ≡ true
      → (ltb 0 l.pump_dropped && ltb (length l.pump + 1) buffer_size) ≡ false
      → write_async format_error l t ≡ ok (record l { pump = l.pump ++ t ∷ [] })
  unfolding write_async
  write_kept l t o h k = elim (Bool-cases (ltb 0 l.pump_dropped)) [
    | inl lost ↦
        let no_more : ltb (length l.pump + 1) buffer_size ≡ false = rw lost at k in
        rw (write_async, o, h, lost, no_more)
    | inr none_lost ↦ rw (write_async, o, h, none_lost)
  ]

  -- One call of `writeAsync` on a pump that accounts for fewer lines than the counter holds.
  wrote-IsPump :
      (t : Text) (s : Logger × List Text) (n : List Text)
      → length n < 2 ^ 64 - 1
      → IsPump s n
      → IsPump (event_step (wrote t) s) (n ++ t ∷ [])
  wrote-IsPump t (l, out) n b i =
      let low = count_le report_text (out ++ l.pump) l.pump_dropped n i.lines in
      let queued = line-Accounts report_text (out ++ l.pump) l.pump_dropped n t i.lines in
      let one = length-append l.pump (t ∷ []) in
      let few : length (n ++ t ∷ []) ≤ buffer_size
          → (l.pump_dropped ≡ 0) × (out ++ l.pump ≡ n) × (length l.pump < buffer_size) =
        λ e.
          let (zero_lost, whole) = i.kept (omega (arith, length-append n (t ∷ []), e)) in
          (
            zero_lost,
            whole,
            omega (arith, ap length whole, length-append out l.pump, length-append n (t ∷ []), e),
          ) in
      let two = length-append (l.pump ++ t ∷ []) (report_text l.pump_dropped ∷ []) in
      elim (Bool-cases (ltb (length l.pump) buffer_size)) [
        | inr no_room ↦
            rw (event_step, write_full l t i.open_ no_room (omega arith))
              record {
                open_ = i.open_;
                room = i.room;
                lines = drop-Accounts report_text (out ++ l.pump) l.pump_dropped n t i.lines;
                kept = λ e. let (_, _, space) = few e in absurd (ground (arith, space, no_room));
              }
        | inl has_room ↦
            elim (Bool-cases (ltb 0 l.pump_dropped && ltb (length l.pump + 1) buffer_size)) [
              | inl tells ↦
                  rw (event_step, write_told l t i.open_ has_room tells (omega arith))
                    record {
                      open_ = i.open_;
                      room = ground arith;
                      lines =
                          rw
                            (
                              sym (
                                  append_assoc out (l.pump ++ t ∷ [])
                                    (report_text l.pump_dropped ∷ [])),
                              sym (append_assoc out l.pump (t ∷ [])),
                            )
                            (report-Accounts report_text (out ++ l.pump ++ t ∷ []) l.pump_dropped
                              (n ++ t ∷ []) (ground (arith, tells)) queued);
                      kept = λ e.
                          let (zero_lost, _, _) = few e in
                          absurd (ground (arith, zero_lost, tells));
                    }
              | inr keeps ↦
                  rw (event_step, write_kept l t i.open_ has_room keeps)
                    record {
                      open_ = i.open_;
                      room = ground arith;
                      lines = rw (sym (append_assoc out l.pump (t ∷ []))) queued;
                      kept = λ e.
                          let (zero_lost, whole, _) = few e in
                          (
                            zero_lost,
                            sym (append_assoc out l.pump (t ∷ []))
                                ∙ ap (λ (x : List Text). x ++ t ∷ []) whole,
                          );
                    }
            ]
      ]

  took_lines :
      (xs out : List Text) (c : Bool) (d k : ℕ) (n : List Text)
      → IsPump (record { pump = xs; pump_closed = c; pump_dropped = d; conn_dropped = k }, out) n
      → IsPump
          (event_step took
            (record { pump = xs; pump_closed = c; pump_dropped = d; conn_dropped = k }, out))
          n
  unfolding take_line
  took_lines [] out c d k n i = i
  took_lines (x ∷ xs) out c d k n i = record {
    open_ = i.open_;
    room = let r = i.room in omega arith;
    lines = rw (append_assoc out (x ∷ []) xs) i.lines;
    kept =
        λ e. let (zero_lost, whole) = i.kept e in (zero_lost, append_assoc out (x ∷ []) xs ∙ whole);
  }

  took-IsPump : (s : Logger × List Text) (n : List Text) → IsPump s n → IsPump (event_step took s) n
  took-IsPump (l, out) n i = took_lines l.pump out l.pump_closed l.pump_dropped l.conn_dropped n i

  run-IsPump :
      (es : List PumpEvent) (s : Logger × List Text) (n : List Text)
      → length n + length (handed es) < 2 ^ 64
      → IsPump s n
      → IsPump (run_events es s) (n ++ handed es)
  run-IsPump [] s n b i = rw (append-nil n) i
  run-IsPump (wrote t ∷ es) s n b i =
      let more =
        run-IsPump es (event_step (wrote t) s) (n ++ t ∷ [])
          (omega (arith, length-append n (t ∷ []))) (wrote-IsPump t s n (omega arith) i) in
      rw (append_assoc n (t ∷ []) (handed es)) at more
  run-IsPump (took ∷ es) s n b i = run-IsPump es (event_step took s) n b (took-IsPump s n i)

  -- From a new logger, and for fewer lines than a 64-bit counter holds: in whatever order lines are
  -- handed over and taken out, the pump is open and holds a hundred at most. One history of the lines
  -- handed over, each of which is passed on or dropped, in their order, explains what came out of the
  -- pump and waits in it: the lines passed on, each as it was handed over, and reports that each
  -- tell how many lines were dropped since the report before. `PumpDropped` is the number dropped
  -- since the last report. While no more than a hundred lines were handed over none is dropped, and
  -- what came out and what waits are just these lines, in order.
  pub run_events-IsPump :
      (es : List PumpEvent)
      → length (handed es) < 2 ^ 64
      → IsPump (run_events es (new_logger, [])) (handed es)
  run_events-IsPump es b =
      run-IsPump es (new_logger, []) [] (omega arith)
        (record {
          open_ = refl;
          room = omega arith;
          lines = new-Accounts report_text;
          kept = λ e. (refl, refl);
        })
