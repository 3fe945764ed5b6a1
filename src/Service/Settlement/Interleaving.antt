-- ===== src/Service/Settlement/Interleaving.antt =====
-- Two threads in `settle` at once. The balances are read before the lock is taken, so both may
-- read before either writes.
pub mod LostUpdate
use upi_w_o_internet.Common.Int.{ℤ}
use upi_w_o_internet.Common.Result.{Action, throw, pure, ◌>>=◌}
use upi_w_o_internet.Model.Records.{Transaction}
use upi_w_o_internet.Model.Sqlite.{Sqlite}
use upi_w_o_internet.Service.Settlement.{Request, debit, credit, read_accounts, settle_locked}

-- Thread 1 reads, thread 2 reads, thread 1 writes, thread 2 writes: first attempts that pass the
-- check of the balance.
unfoldable pub overlapped :
    (q : Sqlite) → Request → Request → ℤ → ℤ → Action q.Db (Transaction × Transaction)
overlapped q r₁ r₂ at₁ at₂ = do
  (a₁, b₁) ← read_accounts q r₁
  (a₂, b₂) ← read_accounts q r₂
  tx₁ ←
      settle_locked q r₁ (debit r₁.instruction.amount a₁) (credit r₁.instruction.amount b₁) at₁
        throw
  tx₂ ←
      settle_locked q r₂ (debit r₂.instruction.amount a₂) (credit r₂.instruction.amount b₂) at₂
        throw
  pure (tx₁, tx₂)
