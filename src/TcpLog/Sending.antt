-- ===== src/TcpLog/Sending.antt =====
-- The lines that `sendLogs` takes out of the pump.
use cypress.Base.{
  ℕ, suc, ◌+◌, ◌-◌, ◌%◌, ◌^◌, ◌<◌, ◌≡◌, refl, Bool, true, false, List, [], ◌∷◌, length, ltb,
  if◌then◌else◌, ◌&&◌, arith, Bool-cases, inl, inr, not, ◌||◌, All, map, sym, ◌∙◌, ◌++◌,
  append_assoc, append-nil, length-append,
}
use cypress.Base.Text.{Text}
use cypress.TcpLog.{
  conn_text, Calls, Next, next_line, nil_connection, Sink, report_dropped, line_written, send_line,
  line_dropped, send_logs,
}
use cypress.TcpLog.Ledger.{
  Accounts, line-Accounts, report-Accounts, drop-Accounts, count_le, new-Accounts,
}

-- Both the write of a line and the dial after it fail.
abbrev pub cut_off : Calls → Bool
cut_off c = not c.write && not c.redial

-- The lines up to the first at which the network is cut off, with that one.
abbrev pub handled : List (Calls × Text) → List Text
handled [] = []
handled ((c, t) ∷ rest) = if cut_off c then t ∷ [] else t ∷ handled rest

-- A line goes out at once, or after a dial.
abbrev pub reaches : Calls → Bool
reaches c = c.write || c.redial && c.rewrite

abbrev pub ending : List (Calls × Text) → Next
ending [] = next_line
ending ((c, t) ∷ rest) = if cut_off c then nil_connection else ending rest

module _ (format_error : Text → Text) where
  abbrev report_text : ℕ → Text
  report_text n = format_error (conn_text n)

  abbrev Accounted : Sink → List Text → Type 0
  Accounted s n = Accounts (λ k. format_error (conn_text k)) s.sent s.conn_dropped n

  report_Accounts :
      (works : Bool) (s : Sink) (n : List Text)
      → length n < 2 ^ 64
      → Accounted s n
      → Accounted (report_dropped format_error works s) n
  unfolding report_dropped
  report_Accounts works s n b a =
      let low = count_le report_text s.sent s.conn_dropped n a in
      let wrap : (s.conn_dropped + 2 ^ 64 - s.conn_dropped) % 2 ^ 64 ≡ 0 = omega arith in
      elim (Bool-cases (ltb 0 s.conn_dropped)) [
        | inr none_lost ↦ rw (report_dropped, none_lost) a
        | inl lost ↦ elim (Bool-cases works) [
          | inr fails ↦ rw (report_dropped, lost, fails) a
          | inl sends ↦
              rw (report_dropped, lost, sends, wrap)
                (report-Accounts report_text s.sent s.conn_dropped n (ground (arith, lost)) a)
        ]
      ]

  written_Accounts :
      (p : Bool) (s : Sink) (t : Text) (n : List Text)
      → length n < 2 ^ 64 - 1
      → Accounted s n
      → Accounted (report_dropped format_error p (line_written format_error s t)) (n ++ t ∷ [])
  written_Accounts p s t n b a =
      report_Accounts p (line_written format_error s t) (n ++ t ∷ [])
        (omega (arith, length-append n (t ∷ [])))
        (line-Accounts report_text s.sent s.conn_dropped n t a)

  dropped_Accounts :
      (s : Sink) (t : Text) (n : List Text)
      → length n < 2 ^ 64 - 1
      → Accounted s n
      → Accounted (line_dropped format_error s) (n ++ t ∷ [])
  dropped_Accounts s t n b a =
      let low = count_le report_text s.sent s.conn_dropped n a in
      let wrap : (s.conn_dropped + 1) % 2 ^ 64 ≡ suc s.conn_dropped = omega arith in
      rw wrap (drop-Accounts report_text s.sent s.conn_dropped n t a)

  -- What is shown of a run that starts with the lines `n` accounted for.
  abbrev Explained : List (Calls × Text) → List Text → Sink × Next → Type 0
  Explained script n out = (out.1 ≡ ending script) × Accounted out.0 (n ++ handled script)

  one_line :
      (w d r p : Bool) (t : Text) (rest : List (Calls × Text)) (s : Sink) (n : List Text)
      → length n < 2 ^ 64 - 1
      → Accounted s n
      → ((s' : Sink)
          → Accounted s' (n ++ t ∷ [])
          → Explained rest (n ++ t ∷ []) (send_logs format_error rest s'))
      → Explained ((record { write = w; redial = d; rewrite = r; report = p }, t) ∷ rest) n (
          send_logs format_error
            ((record { write = w; redial = d; rewrite = r; report = p }, t) ∷ rest)
            s)
  unfolding send_logs
  one_line true d r p t rest s n b a go =
      let (x, y) = go _ (written_Accounts p s t n b a) in
      (x, rw (append_assoc n (t ∷ []) (handled rest)) at y)
  one_line false false r p t rest s n b a go = (refl, dropped_Accounts s t n b a)
  one_line false true true p t rest s n b a go =
      let (x, y) = go _ (written_Accounts p s t n b a) in
      (x, rw (append_assoc n (t ∷ []) (handled rest)) at y)
  one_line false true false p t rest s n b a go =
      let (x, y) = go _ (dropped_Accounts s t n b a) in
      (x, rw (append_assoc n (t ∷ []) (handled rest)) at y)

  -- From any sink that accounts for the lines `n`.
  explained :
      (script : List (Calls × Text)) (s : Sink) (n : List Text)
      → length n + length script < 2 ^ 64
      → Accounted s n
      → Explained script n (send_logs format_error script s)
  unfolding send_logs
  explained [] s n b a = (refl, rw (append-nil n) a)
  explained ((c, t) ∷ rest) s n b a =
      one_line c.write c.redial c.rewrite c.report t rest s n (omega arith) a
        λ s' a'. explained rest s' (n ++ t ∷ []) (omega (arith, length-append n (t ∷ []))) a'

  send_line-reached :
      (c : Calls) (s : Sink) (t : Text)
      → s.conn_dropped ≡ 0
      → reaches c ≡ true
      → send_line format_error c s t ≡ (line_written format_error s t, next_line)
  unfolding send_line report_dropped
  send_line-reached c s t z h = ground (arith, z, h)

  send_logs-reached :
      (script : List (Calls × Text)) (s : Sink)
      → s.conn_dropped ≡ 0
      → All (λ x. reaches x.0 ≡ true) script
      → (send_logs format_error script s).0.sent ≡ s.sent ++ map (λ x. x.1) script
  unfolding send_logs
  send_logs-reached [] s z h = sym (append-nil s.sent)
  send_logs-reached ((c, t) ∷ rest) s z (h, hs) =
      let step = send_line-reached c s t z h in
      rw (step, send_logs)
        (rw step (
          send_logs-reached rest (line_written format_error s t) z hs
          ∙ append_assoc s.sent (t ∷ []) (map (λ x. x.1) rest)))

  -- For fewer lines than a 64-bit counter holds and however the calls on the network turn out: the
  -- loop runs into a nil connection exactly when a write and the dial after it both fail. One history of
  -- the lines up to there, each of which is written or dropped, in their order, explains what was
  -- written: the lines, each as it came out of the pump, and reports that each tell how many lines
  -- were dropped since the report before. `ConnDropped` is the number dropped since the last report.
  -- Where each line goes out, at once or after a dial, the lines are all that is written.
  pub send_logs-Accounts :
      (script : List (Calls × Text))
      → length script < 2 ^ 64
      → ((send_logs format_error script (record { sent = []; conn_dropped = 0 })).1 ≡ ending script)
        × Accounts
            (λ k. format_error (conn_text k))
            (send_logs format_error script (record { sent = []; conn_dropped = 0 })).0.sent
            (send_logs format_error script (record { sent = []; conn_dropped = 0 })).0.conn_dropped
            (handled script)
        × (All (λ x. reaches x.0 ≡ true) script
            → (send_logs format_error script (record { sent = []; conn_dropped = 0 })).0.sent
              ≡ map (λ x. x.1) script)
  send_logs-Accounts script b =
      let start : Sink = record { sent = []; conn_dropped = 0 } in
      let (end, accounts) = explained script start [] (omega arith) (new-Accounts report_text) in
      (end, accounts, λ h. send_logs-reached script start refl h)
