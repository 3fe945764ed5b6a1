-- ===== src/Model/Database.antt =====
-- model/Database.cpp: opening, the schema, the seed, `execute` and `reset`.
-- The recursive mutex is held for each call; the calls of one thread are modelled.
use Prim.Native.String.{◌++◌ as ◌<>◌}
use upi_w_o_internet.Common.{String, none, some}
use upi_w_o_internet.Common.Result.{Action, Result, ok, err, runtime_error, ◌>>◌}
use upi_w_o_internet.Model.Sqlite.{
  Sqlite, sql_schema, sql_seed, sql_delete_transactions, sql_delete_accounts,
}

module _ (q : Sqlite) where
  open q use {Db, open_error, opened, exec}

  abbrev exec_or_throw : String → String → Action Db (Unit {0})
  exec_or_throw prefix sql d =
      let (e, d') = exec sql d in
      elim e [ none ↦ (ok tt, d') | some msg ↦ (err (runtime_error (prefix <> msg)), d') ]

  unfoldable pub execute : String → Action Db (Unit {0})
  execute sql = exec_or_throw "SQLite execute failed: " sql

  unfoldable pub init_schema : Action Db (Unit {0})
  init_schema = exec_or_throw "Failed to initialize schema: " sql_schema

  unfoldable pub seed_accounts : Action Db (Unit {0})
  seed_accounts = exec_or_throw "Failed to seed demo accounts: " sql_seed

  abbrev open_or_throw : Action Db (Unit {0})
  open_or_throw d = elim open_error [
    | none ↦ (ok tt, d)
    | some e ↦ (err (runtime_error ("Failed to open SQLite in-memory database: " <> e)), d)
  ]

  -- `Database::Database`, and the connection after it
  unfoldable pub new_database : Result (Unit {0}) × Db
  unfolding init_schema seed_accounts
  new_database = (do open_or_throw; init_schema; seed_accounts) opened

  unfoldable pub reset : Action Db (Unit {0})
  unfolding execute seed_accounts
  reset = do execute sql_delete_transactions; execute sql_delete_accounts; seed_accounts
