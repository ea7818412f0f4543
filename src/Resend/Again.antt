-- ===== src/Resend/Again.antt =====
-- Reconnecting when the new connection takes everything.
use cypress.Base.{
  ℕ, suc, ◌+◌, ◌-◌, ◌%◌, ◌^◌, ◌<◌, ◌≡◌, refl, sym, ◌∙◌, Bool, true, false, ◌&&◌, some, List, [],
  ◌∷◌, ◌++◌, append_assoc, append-nil, length, arith,
}
use cypress.Base.Results.{ok}
use cypress.Send.{send, read_ack}
use cypress.Send.Requests.{entry_of}
use cypress.Send.Equations.{send_written, read_nothing}
use cypress.Resend.{
  Link, ReliableSend, unheard, with_link, transmit, link_reads, link_open, resend, reconnect,
}

module _ {M : Type 0} where
  with_link_at :
      (f : Link M → Link M) (x : ReliableSend M) (s u : Link M)
      → x.link ≡ some s
      → f (unheard s) ≡ unheard u
      → with_link f x ≡ ok (record x { link = some (unheard u) })
  unfolding with_link
  with_link_at f x s u e g = rw (with_link, e, g)

  -- The connection after one more message.
  abbrev sent_on : M → Link M → Link M
  sent_on m s = record s {
    reqs = entry_of m (some tt) ∷ s.reqs;
    available = (s.available + 2 ^ 32 - 1) % 2 ^ 32;
    wire = s.wire ++ m ∷ [];
  }

  transmit_at :
      (m : M) (x : ReliableSend M) (s : Link M)
      → x.link ≡ some s
      → s.closed ≡ false
      → transmit true m x
        ≡ ok (record x {
          link = some (unheard (sent_on m s));
          outstanding = (x.outstanding + 1) % 2 ^ 64;
        })
  unfolding transmit
  transmit_at m x s e o =
      with_link_at (λ t. (send true t m (some tt)).0)
        (record x { outstanding = (x.outstanding + 1) % 2 ^ 64 }) s (sent_on m s) e
        (send_written (unheard s) m (some tt) o)

  reads_at :
      (x : ReliableSend M) (s : Link M)
      → x.link ≡ some s
      → link_reads [] x ≡ ok (record x { link = some (unheard s) })
  unfolding link_reads
  reads_at x s e = with_link_at (read_ack []) x s s e (read_nothing (unheard s))

  -- What `resend` leaves when every message is written and none is acknowledged meanwhile.
  pub record Resent (ms : List M) (x : ReliableSend M) (s : Link M) (y : ReliableSend M)
      : Type 0 where
    pub connection : Link M
    pub linked : y.link ≡ some connection
    pub unclosed : connection.closed ≡ false
    pub wire_lem : connection.wire ≡ s.wire ++ ms
    pub credit : connection.available ≡ s.available - length ms
    pub nothing_kept : y.nacked ≡ x.nacked
    pub counted_on : y.outstanding ≡ (x.outstanding + length ms) % 2 ^ 64

  module _ (sorted : List M → List M) where
    resend_on :
        (script : ℕ → List ℕ × Bool) (i : ℕ) (m : M) (ms : List M) (x y z : ReliableSend M)
        → link_reads (script i).0 x ≡ ok y
        → transmit (script i).1 m y ≡ ok z
        → (link_open y && (script i).1) ≡ true
        → resend sorted script i (m ∷ ms) x ≡ resend sorted script (suc i) ms z
    unfolding resend
    resend_on script i m ms x y z a b c = rw (resend, a, b, c)

    resend_all :
        (i : ℕ) (ms : List M) (x : ReliableSend M) (s : Link M)
        → x.link ≡ some s
        → s.closed ≡ false
        → s.available < 2 ^ 32
        → length ms < s.available
        → x.outstanding < 2 ^ 64
        → (y : ReliableSend M) × (resend sorted (λ n. ([], true)) i ms x ≡ ok y) × Resent ms x s y
    unfolding resend
    resend_all i [] x s e o small room fits = (
      x,
      refl,
      record {
        connection = s;
        linked = e;
        unclosed = o;
        wire_lem = sym (append-nil s.wire);
        credit = omega arith;
        nothing_kept = refl;
        counted_on = omega arith;
      },
    )
    resend_all i (m ∷ ms) x s e o small room fits =
        let v : ReliableSend M = record x { link = some (unheard s) } in
        let z : ReliableSend M = record x {
          link = some (unheard (sent_on m (unheard s)));
          outstanding = (x.outstanding + 1) % 2 ^ 64;
        } in
        let (y, again, r) =
          resend_all (suc i) ms z (unheard (sent_on m (unheard s))) refl o (omega arith)
            (omega arith) (omega arith) in
        (
          y,
          resend_on (λ n. ([], true)) i m ms x v z (reads_at x s e)
                (transmit_at m v (unheard s) refl o) (ground arith)
              ∙ again,
          record {
            connection = r.connection;
            linked = r.linked;
            unclosed = r.unclosed;
            wire_lem = r.wire_lem ∙ append_assoc s.wire (m ∷ []) ms;
            credit = r.credit ∙ omega arith;
            nothing_kept = r.nothing_kept;
            counted_on = r.counted_on ∙ omega arith;
          },
        )

    -- Reconnecting with a connection that is open, whose window has room for all kept messages and more, and that writes
    -- every message before an acknowledgement comes in: all kept messages go out
    -- on it in their order, none stays kept, and every one counts as outstanding.
    pub reconnect_resends :
        (x : ReliableSend M) (s : Link M)
        → s.closed ≡ false
        → s.available < 2 ^ 32
        → length x.nacked < s.available
        → x.outstanding < 2 ^ 64
        → (y : ReliableSend M) × (t : Link M) × (reconnect sorted (some s) (λ n. ([], true)) x
            ≡ ok y)
          × (y.link ≡ some t)
          × (t.closed ≡ false)
          × (t.wire ≡ s.wire ++ x.nacked)
          × (t.available ≡ s.available - length x.nacked)
          × (y.nacked ≡ [])
          × (y.outstanding ≡ (x.outstanding + length x.nacked) % 2 ^ 64)
    unfolding reconnect
    reconnect_resends x s o small room fits =
        let v : ReliableSend M = record x {
          link = some (record s { watched = true });
          signal = false;
          nacked = [];
        } in
        let (y, e, r) =
          resend_all 0 x.nacked v (record s { watched = true }) refl o small room fits in
        (
          y, r.connection, e, r.linked, r.unclosed, r.wire_lem, r.credit, r.nothing_kept,
          r.counted_on,
        )
