-- ===== src/Main/Tables.antt =====
-- The tables after Database::Database and after Database::reset.
use upi_w_o_internet.Common.{◌≡◌, refl, [], arith}
use upi_w_o_internet.Common.Result.{ok}
use upi_w_o_internet.Model.Sqlite.{Sqlite, sql_delete_transactions, sql_delete_accounts}
use upi_w_o_internet.Model.Database
use upi_w_o_internet.Model.Documented.{IsSqlite}
use upi_w_o_internet.Model.Tables.{Store, demo_accounts}
use upi_w_o_internet.Model.Views.{Yields}
use upi_w_o_internet.Service.Settlement.Refinement.{at_rest}

abbrev pub first_store : Store
first_store = record { accounts = demo_accounts; transactions = []; sequence = 0 }

module _ (q : Sqlite) (laws : IsSqlite q) where
  open laws use {view}

  init_schema-Yields :
      Yields q laws
        (Database.init_schema q q.opened)
        (ok tt)
        (at_rest (record { accounts = []; transactions = []; sequence = 0 }))
  unfolding Database.init_schema
  init_schema-Yields = let p = laws.schema in ground arith

  pub seed_accounts-Yields :
      (s : Store) (d : q.Db)
      → view d ≡ at_rest s
      → s.accounts ≡ []
      → Yields q laws
          (Database.seed_accounts q d)
          (ok tt)
          (at_rest (record s { accounts = demo_accounts }))
  unfolding Database.seed_accounts
  seed_accounts-Yields s d e none_yet = let p = laws.seeds d (rw e none_yet) in ground arith

  pub new_database-Yields : Yields q laws (Database.new_database q) (ok tt) (at_rest first_store)
  unfolding Database.new_database
  new_database-Yields =
      let opens = laws.opens in
      let p = init_schema-Yields in
      let r = seed_accounts-Yields _ (Database.init_schema q q.opened).1 p.1 refl in ground arith

  delete_transactions-Yields :
      (s : Store) (d : q.Db)
      → view d ≡ at_rest s
      → Yields q laws
          (Database.execute q sql_delete_transactions d)
          (ok tt)
          (at_rest (record s { transactions = [] }))
  unfolding Database.execute
  delete_transactions-Yields s d e = let p = rw e at (laws.deletes_transactions d) in ground arith

  delete_accounts-Yields :
      (s : Store) (d : q.Db)
      → view d ≡ at_rest s
      → Yields q laws
          (Database.execute q sql_delete_accounts d)
          (ok tt)
          (at_rest (record s { accounts = [] }))
  unfolding Database.execute
  delete_accounts-Yields s d e = let p = rw e at (laws.deletes_accounts d) in ground arith

  pub reset-Yields :
      (s : Store) (d : q.Db)
      → view d ≡ at_rest s
      → Yields q laws
          (Database.reset q d)
          (ok tt)
          (at_rest (record s { accounts = demo_accounts; transactions = [] }))
  unfolding Database.reset
  reset-Yields s d e =
      let p = delete_transactions-Yields s d e in
      let d₁ = (Database.execute q sql_delete_transactions d).1 in
      let r = delete_accounts-Yields _ d₁ p.1 in
      let d₂ = (Database.execute q sql_delete_accounts d₁).1 in
      let t = seed_accounts-Yields _ d₂ r.1 refl in ground arith
