-- ===== src/Service/Settlement/Threads/Sections.antt =====
-- The section under the lock, in terms of what the tables hold, and what a row that is posted leaves.
use upi_w_o_internet.Common.{◌≡◌, inl, inr, Bool-cases, arith}
use upi_w_o_internet.Common.Int.{ℤ}
use upi_w_o_internet.Common.Result.{ok}
use upi_w_o_internet.Common.Text.{c_str}
use upi_w_o_internet.Model.Records.{Account, settled}
use upi_w_o_internet.Model.Sqlite.{Sqlite, sql_begin}
use upi_w_o_internet.Model.Tables.{Store, upsert, has_hash}
use upi_w_o_internet.Model.Documented.{IsSqlite}
use upi_w_o_internet.Model.Database
use upi_w_o_internet.Model.Views.{Yields, stored_account}
use upi_w_o_internet.Service.Settlement.{Request, write_settlement, locked_section}
use upi_w_o_internet.Service.Settlement.Spec.{post}
use upi_w_o_internet.Service.Settlement.Locking.{
  at_rest, HasRoom, begin-Yields, rollback-Yields, write_settlement-Yields,
  write_settlement-Yields_err,
}

module _ (q : Sqlite) (laws : IsSqlite q) (r : Request) where
  open q use {Db}
  open laws use {view}

  -- The block ends as if the row and both balances were posted at once.
  pub locked_section-Yields :
      (sender receiver : Account) (at : ℤ) (s : Store) (d : Db)
      → view d ≡ at_rest s
      → HasRoom s
      → let accounts =
          upsert (stored_account receiver) (upsert (stored_account sender) s.accounts) in
        let end = post r at settled accounts s in
        Yields q laws (locked_section q r sender receiver at d) (ok end.0) (at_rest end.1)
  unfolding locked_section post
  locked_section-Yields sender receiver at s d e room =
      let p₁ = begin-Yields q laws s d e in
      let d₁ = (Database.execute q sql_begin d).1 in
      elim (Bool-cases (has_hash (c_str r.packet_hash) s.transactions)) [
        | inl old ↦
            let p₂ = write_settlement-Yields_err q laws r sender receiver at s s d₁ p₁.1 old in
            let p₃ =
              rollback-Yields q laws _ s (write_settlement q r sender receiver at d₁).1 p₂.1 in
            ground arith
        | inr new ↦
            let p₂ = write_settlement-Yields q laws r sender receiver at s s d₁ p₁.1 new room in
            ground arith
      ]
