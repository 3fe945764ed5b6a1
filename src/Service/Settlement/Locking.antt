-- ===== src/Service/Settlement/Locking.antt =====
-- The section of `settle` under the lock: it commits what it writes or rolls everything back.
use upi_w_o_internet.Common.{suc, ◌<◌, ◌≡◌, true, false, none, some, arith}
use upi_w_o_internet.Common.Int.{ℤ, pos, half64}
use upi_w_o_internet.Common.Result.{Result, Action, ok, err, Exception, runtime_error}
use upi_w_o_internet.Common.Text.{c_str}
use upi_w_o_internet.Model.Records.{Account, Transaction, settled}
use upi_w_o_internet.Model.Sqlite.{Sqlite, sql_begin, sql_commit, sql_rollback}
use upi_w_o_internet.Model.Tables.{Store, Tables, upsert, has_hash, append_row}
use upi_w_o_internet.Model.Documented.{IsSqlite}
use upi_w_o_internet.Model.Database
use upi_w_o_internet.Model.Views.{
  Yields, stored_row, stored_account, save_failure, save_account-Yields, save_tx-Yields,
  save_tx-Yields_err,
}
use upi_w_o_internet.Service.Settlement.{Request, new_transaction, write_settlement, settle_locked}
use upi_w_o_internet.Model.AccountRepository
use upi_w_o_internet.Model.TransactionRepository

-- No SQL transaction is open.
abbrev pub at_rest : Store → Tables
at_rest s = record { current = s; saved = none }

abbrev pub in_transaction : Store → Store → Tables
in_transaction s saved = record { current = s; saved = some saved }

-- There is an id for one more row.
abbrev pub HasRoom : Store → Type 0
HasRoom s = suc s.sequence < half64

module _ (q : Sqlite) (laws : IsSqlite q) where
  open q use {Db}
  open laws use {view}

  pub begin-Yields :
      (s : Store) (d : Db)
      → view d ≡ at_rest s
      → Yields q laws (Database.execute q sql_begin d) (ok tt) (in_transaction s s)
  unfolding Database.execute
  begin-Yields s d e = ground (arith, laws.begins d)

  commit-Yields :
      (s b : Store) (d : Db)
      → view d ≡ in_transaction s b
      → Yields q laws (Database.execute q sql_commit d) (ok tt) (at_rest s)
  unfolding Database.execute
  commit-Yields s b d e = ground (arith, laws.commits d b)

  pub rollback-Yields :
      (s b : Store) (d : Db)
      → view d ≡ in_transaction s b
      → Yields q laws (Database.execute q sql_rollback d) (ok tt) (at_rest b)
  unfolding Database.execute
  rollback-Yields s b d e = ground (arith, laws.rolls_back d b)

  module _ (r : Request) where
    -- Both rows are written, the new transaction gets its id, and all is committed.
    pub write_settlement-Yields :
        (sender receiver : Account) (at : ℤ) (s b : Store) (d : Db)
        → view d ≡ in_transaction s b
        → has_hash (c_str r.packet_hash) s.transactions ≡ false
        → HasRoom s
        → let tx = new_transaction r at settled in
          Yields q laws
            (write_settlement q r sender receiver at d)
            (ok (record tx { id = pos (suc s.sequence) }))
            (at_rest (
              append_row (stored_row tx) (record s {
                accounts =
                    upsert (stored_account receiver) (upsert (stored_account sender) s.accounts);
              })))
    unfolding write_settlement
    write_settlement-Yields sender receiver at s b d e new room =
        let tx = new_transaction r at settled in
        let p₁ = rw e at (save_account-Yields q laws sender d) in
        let d₁ = (AccountRepository.save q sender d).1 in
        let p₂ = rw p₁.1 at (save_account-Yields q laws receiver d₁) in
        let d₂ = (AccountRepository.save q receiver d₁).1 in
        let p₃ = rw p₂.1 at (save_tx-Yields q laws tx d₂ (rw p₂.1 new) (rw p₂.1 room)) in
        let p₄ = commit-Yields _ b (TransactionRepository.save q tx d₂).1 p₃.1 in ground arith

    -- With a known hash the insert fails before the commit.
    pub write_settlement-Yields_err :
        (sender receiver : Account) (at : ℤ) (s b : Store) (d : Db)
        → view d ≡ in_transaction s b
        → has_hash (c_str r.packet_hash) s.transactions ≡ true
        → Yields q laws
            (write_settlement q r sender receiver at d)
            (err (runtime_error save_failure))
            (in_transaction
              (record s {
                accounts =
                    upsert (stored_account receiver) (upsert (stored_account sender) s.accounts);
              })
              b)
    unfolding write_settlement
    write_settlement-Yields_err sender receiver at s b d e old =
        let tx = new_transaction r at settled in
        let p₁ = rw e at (save_account-Yields q laws sender d) in
        let d₁ = (AccountRepository.save q sender d).1 in
        let p₂ = rw p₁.1 at (save_account-Yields q laws receiver d₁) in
        let d₂ = (AccountRepository.save q receiver d₁).1 in
        let p₃ = rw p₂.1 at (save_tx-Yields_err q laws tx d₂ (rw p₂.1 old)) in ground arith

    -- Under the lock: the whole update, or none of it and the handler.
    pub settle_locked-Yields :
        (sender receiver : Account) (at : ℤ) (retry : Exception → Action Db Transaction) (s : Store)
        (d : Db)
        → view d ≡ at_rest s
        → has_hash (c_str r.packet_hash) s.transactions ≡ false
        → HasRoom s
        → let tx = new_transaction r at settled in
          Yields q laws
            (settle_locked q r sender receiver at retry d)
            (ok (record tx { id = pos (suc s.sequence) }))
            (at_rest (
              append_row (stored_row tx) (record s {
                accounts =
                    upsert (stored_account receiver) (upsert (stored_account sender) s.accounts);
              })))
    unfolding settle_locked
    settle_locked-Yields sender receiver at retry s d e new room =
        let p₁ = begin-Yields s d e in
        let d₁ = (Database.execute q sql_begin d).1 in
        let p₂ = write_settlement-Yields sender receiver at s s d₁ p₁.1 new room in ground arith

    pub settle_locked-Yields_err :
        (sender receiver : Account) (at : ℤ) (retry : Exception → Action Db Transaction) (s : Store)
        (d : Db) {end : Result Transaction} {t : Tables}
        → view d ≡ at_rest s
        → has_hash (c_str r.packet_hash) s.transactions ≡ true
        → ((d' : Db)
            → view d' ≡ at_rest s
            → Yields q laws (retry (runtime_error save_failure) d') end t)
        → Yields q laws (settle_locked q r sender receiver at retry d) end t
    unfolding settle_locked
    settle_locked-Yields_err sender receiver at retry s d e old handled =
        let p₁ = begin-Yields s d e in
        let d₁ = (Database.execute q sql_begin d).1 in
        let p₂ = write_settlement-Yields_err sender receiver at s s d₁ p₁.1 old in
        let d₂ = (write_settlement q r sender receiver at d₁).1 in
        let p₃ = rollback-Yields _ s d₂ p₂.1 in
        let p₄ = handled (Database.execute q sql_rollback d₂).1 p₃.1 in ground arith
