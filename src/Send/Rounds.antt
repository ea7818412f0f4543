-- ===== src/Send/Rounds.antt =====
-- A batch of messages sent while there is credit, and acknowledged all together.
use cypress.Base.{
  ℕ, suc, ◌+◌, ◌-◌, ◌%◌, ◌^◌, ◌≤◌, ◌<◌, ◌≡◌, refl, sym, ◌∙◌, true, false, Option, some, List, [],
  ◌∷◌, ◌++◌, map, reverse, append_assoc, append-nil, reverse-cons, length, replicate,
  length-replicate, arith,
}
use cypress.Send.{
  Send, InFlight, ack, notify, notify_all, send, take_back, ack_one, ack_times, read_ack,
}
use cypress.Send.Requests.{entry_of}
use cypress.Send.Equations.{send_written, read_good}

module _ {R M : Type 0} where
  -- The messages with their requests, written one after the other.
  pub send_all : List (M × Option R) → Send R M → Send R M
  send_all [] s = s
  send_all ((m, req) ∷ xs) s = send_all xs (send true s m req).0

  abbrev pub entries : List (M × Option R) → List (InFlight R M)
  entries [] = []
  entries ((m, req) ∷ xs) = entry_of m req ∷ entries xs

  pub send_all_lem :
      (xs : List (M × Option R)) (s : Send R M)
      → s.closed ≡ false
      → length xs ≤ s.available
      → s.available < 2 ^ 32
      → send_all xs s ≡ record s {
        reqs = reverse (entries xs) ++ s.reqs;
        available = s.available - length xs;
        wire = s.wire ++ map (λ x. x.0) xs;
      }
  unfolding send_all
  send_all_lem [] s o l b = ground (arith, append-nil s.wire)
  send_all_lem ((m, req) ∷ xs) s o l b =
      let step = send_written s m req o in
      let e1 : s.available - 1 - length xs ≡ s.available - suc (length xs) = omega arith in
      let e2 : reverse (entries xs) ++ entry_of m req ∷ s.reqs
          ≡ reverse (entry_of m req ∷ entries xs) ++ s.reqs =
        sym (
          rw (reverse-cons (entry_of m req) (entries xs))
            (append_assoc (reverse (entries xs)) (entry_of m req ∷ []) s.reqs)) in
      let e3 : (s.wire ++ m ∷ []) ++ map (λ x. x.0) xs ≡ s.wire ++ m ∷ map (λ x. x.0) xs =
        append_assoc s.wire (m ∷ []) (map (λ x. x.0) xs) in
      let left : (s.available + 2 ^ 32 - 1) % 2 ^ 32 ≡ s.available - 1 = omega arith in
      rw step (
        rw left (
          send_all_lem xs
            (record s {
              reqs = entry_of m req ∷ s.reqs;
              available = s.available - 1;
              wire = s.wire ++ m ∷ [];
            })
            o (omega arith) (omega arith)
          ∙ rw (e1, e2, e3) refl))

  take_back-last :
      (fs : List (InFlight R M)) (f : InFlight R M) → take_back (fs ++ f ∷ []) ≡ some (f, fs)
  unfolding take_back
  take_back-last [] f = refl
  take_back-last (g ∷ fs) f = rw (take_back-last fs f) refl

  -- As many acknowledgements as there are messages in flight reach them all, the oldest first.
  pub ack_times_all :
      (fs : List (InFlight R M)) (s : Send R M)
      → s.reqs ≡ reverse fs
      → ack_times (length fs) s ≡ record s { reqs = []; notices = s.notices ++ notify_all ack fs }
  unfolding ack_times ack_one
  ack_times_all [] s e = ground (arith, append-nil s.notices)
  ack_times_all (f ∷ fs) s e =
      let back : take_back s.reqs ≡ some (f, reverse fs) =
        rw (e, reverse-cons f fs) (take_back-last (reverse fs) f) in
      let step : ack_one s ≡ record s { reqs = reverse fs; notices = s.notices ++ notify ack f } =
        rw (back, ack_one) refl in
      rw (step, ack_times)
        (ack_times_all fs (record s { reqs = reverse fs; notices = s.notices ++ notify ack f }) refl
          ∙ rw (append_assoc s.notices (notify ack f) (notify_all ack fs)) refl)

  pub length-entries : (xs : List (M × Option R)) → length (entries xs) ≡ length xs
  length-entries [] = refl
  length-entries (x ∷ xs) = omega (arith, length-entries xs)

  -- A batch for which there is credit, written and then acknowledged byte by byte: every request hears
  -- of its message, in the order of sending, nothing is left in flight, and the credit is what it was.
  pub read_ack-send_all :
      (xs : List (M × Option R)) (s : Send R M)
      → s.closed ≡ false
      → s.reading ≡ true
      → s.reqs ≡ []
      → length xs ≤ s.available
      → s.available < 2 ^ 32
      → read_ack (replicate (length xs) b'k') (send_all xs s) ≡ record s {
        notices = s.notices ++ notify_all ack (entries xs);
        wire = s.wire ++ map (λ x. x.0) xs;
      }
  read_ack-send_all [] s o r e l b =
      unfold read_ack send_all in ground (arith, append-nil s.notices, append-nil s.wire)
  read_ack-send_all (x ∷ xs) s o r e l b =
      let t : Send R M = record s {
        reqs = reverse (entries (x ∷ xs)) ++ s.reqs;
        available = s.available - length (x ∷ xs);
        wire = s.wire ++ map (λ x. x.0) (x ∷ xs);
      } in
      let sent = send_all_lem (x ∷ xs) s o l b in
      let pending : t.reqs ≡ reverse (entries (x ∷ xs)) =
        rw (e, append-nil (reverse (entries (x ∷ xs)))) refl in
      let acked = ack_times_all (entries (x ∷ xs)) t pending in
      let n : ℕ = suc (length xs) in
      let bytes : length {A = ℕ} (replicate (length xs) b'k') ≡ length xs =
        length-replicate (length xs) b'k' in
      let all : suc (length (entries xs)) ≡ n = omega (arith, length-entries xs) in
      let done : ack_times n t
          ≡ record t { reqs = []; notices = t.notices ++ notify_all ack (entries (x ∷ xs)) } =
        rw all at acked in
      let credit : (s.available - n + n) % 2 ^ 32 ≡ s.available = omega arith in
      rw sent (
        read_good t b'k' (replicate (length xs) b'k') r refl
        ∙ rw bytes (rw done (rw (credit, e) refl)))
