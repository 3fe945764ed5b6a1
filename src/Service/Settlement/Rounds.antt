-- ===== src/Service/Settlement/Rounds.antt =====
-- SettlementService::settle: how many rounds its loop takes.
use upi_w_o_internet.Common.{
  ℕ, zero, suc, ◌+◌, ◌≤◌, ◌≡◌, refl, sym, ap, ◌∙◌, if◌then◌else◌, ◌==◌, arith,
}
use upi_w_o_internet.Common.Int.{ℤ, ltb_ℤ}
use upi_w_o_internet.Common.Result.{Action, throw, ◌>>=◌}
use upi_w_o_internet.Model.Records.{Transaction}
use upi_w_o_internet.Model.Sqlite.{Sqlite}
use upi_w_o_internet.Service.Settlement.{
  Request, settle, settle_attempts, settle_locked, read_accounts, record_rejected, debit, credit,
}

module _ (q : Sqlite) (r : Request) (now : ℕ → ℤ) where
  -- One round, before the rounds that may follow it.
  abbrev round : ℕ → Action q.Db Transaction → Action q.Db Transaction
  round attempt continue = do
    (sender, receiver) ← read_accounts q r
    if ltb_ℤ sender.balance r.instruction.amount
        then record_rejected q r (now attempt)
        else settle_locked q r (debit r.instruction.amount sender)
            (credit r.instruction.amount receiver) (now attempt)
            λ e. if attempt == 3 then throw e else continue

  settle_attempts-suc :
      (left attempt : ℕ)
      → settle_attempts q r now (suc left) attempt
        ≡ round attempt (settle_attempts q r now left (suc attempt))
  unfolding settle_attempts
  settle_attempts-suc left attempt = refl

  round_last :
      (attempt : ℕ) (k k' : Action q.Db Transaction)
      → attempt ≡ 3
      → round attempt k ≡ round attempt k'
  round_last attempt k k' last = rw last refl

  more_rounds :
      (left more attempt : ℕ)
      → attempt + left ≡ 3
      → left ≤ more
      → settle_attempts q r now (suc more) attempt ≡ settle_attempts q r now (suc left) attempt
  more_rounds zero more attempt n le =
      settle_attempts-suc more attempt
      ∙ round_last attempt (settle_attempts q r now more (suc attempt))
          (settle_attempts q r now zero (suc attempt)) (omega (arith, n))
      ∙ sym (settle_attempts-suc zero attempt)
  more_rounds (suc left) zero attempt n le = absurd (omega (arith, le))
  more_rounds (suc left) (suc more) attempt n le =
      settle_attempts-suc (suc more) attempt
      ∙ ap (round attempt)
          (more_rounds left more (suc attempt) (omega (arith, n)) (omega (arith, le)))
      ∙ sym (settle_attempts-suc (suc left) attempt)

  -- Three rounds are enough for the loop of settle: with any larger number of rounds left it comes to
  -- the same result and the same connection, whatever SQLite does.
  pub settle_rounds : (rounds : ℕ) → 3 ≤ rounds → settle_attempts q r now rounds 1 ≡ settle q r now
  unfolding settle
  settle_rounds zero h = absurd (omega (arith, h))
  settle_rounds (suc rounds) h = more_rounds 2 rounds 1 (omega arith) (omega (arith, h))
