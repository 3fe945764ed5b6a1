-- ===== src/Model/Documented.antt =====
-- What SQLite's documentation says of the statements of model/: hypotheses about the interface.
-- Memory is taken to suffice, and the connection is the only one to its in-memory database.
use mathlib.Core.List.{reverse}
use upi_w_o_internet.Common.{
  ℕ, suc, ◌<◌, ◌≤◌, String, ◌≡◌, true, false, none, some, [], ◌∷◌, take, get_elem?, map,
}
use upi_w_o_internet.Common.Int.{half32, ℤ, pos, half64, pos_part, neg_part}
use upi_w_o_internet.Model.Records.{Account}
use upi_w_o_internet.Model.Sqlite.{
  Sqlite, Row, integer, text, sql_find_account, sql_save_account, sql_all_accounts, sql_save_tx,
  sql_exists_tx, sql_top_tx, sql_begin, sql_commit, sql_rollback, sql_delete_transactions,
  sql_delete_accounts, sql_schema, sql_seed,
}
use upi_w_o_internet.Model.Tables.{
  Store, Tables, TransactionRow, account_row, transaction_row, find_account, option_list, upsert,
  has_hash, demo_accounts, done, insert_parameters, append_row,
}

abbrev pub duplicate_hash : String
duplicate_hash = "UNIQUE constraint failed: transactions.packetHash"

abbrev pub IsInt32 : ℤ → Type 0
IsInt32 a = (pos_part a < half32) × (neg_part a ≤ half32)

pub record IsSqlite (q : Sqlite) : Type 0 where
  pub view : q.Db → Tables
  -- sqlite3_open succeeds, and the first statements meet an empty database.
  pub opens : q.open_error ≡ none
  pub schema :
      ((q.exec sql_schema q.opened).0 ≡ none)
      × (view (q.exec sql_schema q.opened).1 ≡ record {
        current = record { accounts = []; transactions = []; sequence = 0 };
        saved = none;
      })
  pub seeds :
      (d : q.Db)
      → (view d).current.accounts ≡ []
      → ((q.exec sql_seed d).0 ≡ none)
        × (view (q.exec sql_seed d).1
            ≡ record (view d) { current = record (view d).current { accounts = demo_accounts } })
  pub prepares_find : (d : q.Db) → q.prepares sql_find_account d ≡ true
  pub prepares_save : (d : q.Db) → q.prepares sql_save_account d ≡ true
  pub prepares_all : (d : q.Db) → q.prepares sql_all_accounts d ≡ true
  pub prepares_tx : (d : q.Db) → q.prepares sql_save_tx d ≡ true
  pub prepares_exists : (d : q.Db) → q.prepares sql_exists_tx d ≡ true
  pub prepares_top : (d : q.Db) → q.prepares sql_top_tx d ≡ true
  pub finds :
      (k : String) (d : q.Db)
      → ((q.run sql_find_account (text k ∷ []) d).0
          ≡ done (map account_row (option_list (find_account k (view d).current.accounts))))
        × (view (q.run sql_find_account (text k ∷ []) d).1 ≡ view d)
  pub saves :
      (a : Account) (d : q.Db)
      → ((q.run sql_save_account (account_row a) d).0 ≡ done [])
        × (view (q.run sql_save_account (account_row a) d).1 ≡ record (view d) {
          current = record (view d).current { accounts = upsert a (view d).current.accounts };
        })
  pub lists :
      (d : q.Db)
      → ((q.run sql_all_accounts [] d).0 ≡ done (map account_row (view d).current.accounts))
        × (view (q.run sql_all_accounts [] d).1 ≡ view d)
  -- AUTOINCREMENT: the next id is one above every id that was ever given out.
  pub inserts :
      (t : TransactionRow) (d : q.Db)
      → has_hash t.packet_hash (view d).current.transactions ≡ false
      → suc (view d).current.sequence < half64
      → let (r, d') = q.run sql_save_tx (insert_parameters t) d in
        (r ≡ done [])
        × (view d' ≡ record (view d) { current = append_row t (view d).current })
        × (q.last_insert_rowid d' ≡ pos (suc (view d).current.sequence))
  -- UNIQUE: the statement fails and changes nothing.
  pub refuses :
      (t : TransactionRow) (d : q.Db)
      → has_hash t.packet_hash (view d).current.transactions ≡ true
      → let (r, d') = q.run sql_save_tx (insert_parameters t) d in
        (r ≡ record { rows = []; error = some duplicate_hash })
        × (view d' ≡ view d)
        × (q.errmsg d' ≡ duplicate_hash)
  pub exists_yes :
      (h : String) (d : q.Db)
      → has_hash h (view d).current.transactions ≡ true
      → ((q.run sql_exists_tx (text h ∷ []) d).0 ≡ done ((integer (pos 1) ∷ []) ∷ []))
        × (view (q.run sql_exists_tx (text h ∷ []) d).1 ≡ view d)
  pub exists_no :
      (h : String) (d : q.Db)
      → has_hash h (view d).current.transactions ≡ false
      → ((q.run sql_exists_tx (text h ∷ []) d).0 ≡ done [])
        × (view (q.run sql_exists_tx (text h ∷ []) d).1 ≡ view d)
  pub tops :
      (d : q.Db)
      → ((q.run sql_top_tx [] d).0
          ≡ done (map transaction_row (take 20 (reverse (view d).current.transactions))))
        × (view (q.run sql_top_tx [] d).1 ≡ view d)
  pub begins :
      (d : q.Db)
      → (view d).saved ≡ none
      → ((q.exec sql_begin d).0 ≡ none)
        × (view (q.exec sql_begin d).1
            ≡ record { current = (view d).current; saved = some (view d).current })
  pub commits :
      (d : q.Db) (s : Store)
      → (view d).saved ≡ some s
      → ((q.exec sql_commit d).0 ≡ none)
        × (view (q.exec sql_commit d).1 ≡ record { current = (view d).current; saved = none })
  pub rolls_back :
      (d : q.Db) (s : Store)
      → (view d).saved ≡ some s
      → ((q.exec sql_rollback d).0 ≡ none)
        × (view (q.exec sql_rollback d).1 ≡ record { current = s; saved = none })
  pub deletes_transactions :
      (d : q.Db)
      → ((q.exec sql_delete_transactions d).0 ≡ none)
        × (view (q.exec sql_delete_transactions d).1
            ≡ record (view d) { current = record (view d).current { transactions = [] } })
  pub deletes_accounts :
      (d : q.Db)
      → ((q.exec sql_delete_accounts d).0 ≡ none)
        × (view (q.exec sql_delete_accounts d).1
            ≡ record (view d) { current = record (view d).current { accounts = [] } })
  pub texts : (r : Row) (i : ℕ) (s : String) → get_elem? r i ≡ some (text s) → q.column_text r i ≡ s
  pub int64s : (r : Row) (i : ℕ) (n : ℤ) → get_elem? r i ≡ some (integer n) → q.column_int64 r i ≡ n
  pub ints :
      (r : Row) (i : ℕ) (n : ℤ)
      → IsInt32 n
      → get_elem? r i ≡ some (integer n)
      → q.column_int r i ≡ n
