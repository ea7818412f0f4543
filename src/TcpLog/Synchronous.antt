-- ===== src/TcpLog/Synchronous.antt =====
-- `Read` of tcplog.go keeps its connection whatever happens to it.
use cypress.Base.{
  ℕ, zero, suc, ◌+◌, ◌<◌, ◌≡◌, refl, Bool, false, Option, none, some, arith, Bool-cases, inl, inr,
  ◌↔◌,
}
use cypress.Base.Text.{Text}
use cypress.TcpLog.{read_sync}

module _ {C : Type 0} (dial : ℕ → Option C) (write : C → ℕ → Text → Bool) (line : Text)
    (c : C) where
  -- With a connection, `Read` has returned after some rounds exactly if one of that many writes to this
  -- very connection works: it never dials again, and while the connection stays broken it does not
  -- return.
  pub read_sync-broken :
      (rounds t : ℕ)
      → (read_sync dial write rounds t (some c) line ≡ none)
        ↔ ((k : ℕ) → k < rounds → write c (t + k) line ≡ false)
  unfolding read_sync
  read_sync-broken zero t = ((λ e k l. absurd (omega arith)), λ h. refl)
  read_sync-broken (suc rounds) t =
      let (to, from) = read_sync-broken rounds (t + 1) in
      let here : t + 0 ≡ t = omega arith in
      elim (Bool-cases (write c t line)) [
        | inl works ↦ (
          (λ e. absurd (ground arith)),
          λ h. absurd (let now = h 0 (omega arith) in ground arith),
        )
        | inr fails ↦ (
          (λ e. λ k. elim k as (λ k. k < suc rounds → write c (t + k) line ≡ false) [
            | zero ↦ λ l. rw here fails
            | suc j ↦ λ l.
                let shifted : t + suc j ≡ t + 1 + j = omega arith in
                rw shifted (to (rw fails at e) j (omega arith))
          ]),
          λ h. rw fails (
              from λ k l.
                let shifted : t + 1 + k ≡ t + (k + 1) = omega arith in
                rw shifted (h (k + 1) (omega arith))),
        )
      ]
