-- ===== src/Model/Sqlite.antt =====
-- The SQLite connection, as far as model/ uses it: an interface, since its code is not in the
-- repository, and the statements of the source. Line breaks inside a statement are left out.
use upi_w_o_internet.Common.{ℕ, String, Bool, Option, List}
use upi_w_o_internet.Common.Int.{ℤ}

-- A bound parameter, or a column of a row.
pub data Value : Type 0 where
  integer : ℤ → Value
  text : String → Value

abbrev pub Row : Type 0
Row = List Value

-- A statement that is stepped to its end: the rows, then SQLITE_DONE (`none`) or an error.
pub record Run : Type 0 where
  pub rows : List Row
  pub error : Option String

pub record Sqlite : Type 1 where
  pub Db : Type 0
  -- sqlite3_open(":memory:"): its error, and the connection
  pub open_error : Option String
  pub opened : Db
  -- sqlite3_exec: its error, and the connection after it
  pub exec : String → Db → Option String × Db
  -- sqlite3_prepare_v2 gives SQLITE_OK
  pub prepares : String → Db → Bool
  -- sqlite3_bind_* of the parameters, and sqlite3_step
  pub run : String → List Value → Db → Run × Db
  pub last_insert_rowid : Db → ℤ
  pub errmsg : Db → String
  pub column_text : Row → ℕ → String
  pub column_int64 : Row → ℕ → ℤ
  pub column_int : Row → ℕ → ℤ

-- The statements of the source.
abbrev pub sql_find_account : String
sql_find_account = "SELECT vpa, holderName, balance, version FROM accounts WHERE vpa = ?"

abbrev pub sql_save_account : String
sql_save_account =
    "INSERT INTO accounts (vpa, holderName, balance, version) VALUES (?, ?, ?, ?) ON CONFLICT(vpa) DO UPDATE SET holderName=excluded.holderName, balance=excluded.balance, version=excluded.version"

abbrev pub sql_all_accounts : String
sql_all_accounts = "SELECT vpa, holderName, balance, version FROM accounts"

abbrev pub sql_save_tx : String
sql_save_tx =
    "INSERT INTO transactions (packetHash, senderVpa, receiverVpa, amount, signedAt, settledAt, bridgeNodeId, hopCount, status) VALUES (?, ?, ?, ?, ?, ?, ?, ?, ?)"

abbrev pub sql_exists_tx : String
sql_exists_tx = "SELECT 1 FROM transactions WHERE packetHash = ?"

abbrev pub sql_top_tx : String
sql_top_tx =
    "SELECT id, packetHash, senderVpa, receiverVpa, amount, signedAt, settledAt, bridgeNodeId, hopCount, status FROM transactions ORDER BY id DESC LIMIT 20"

abbrev pub sql_begin : String
sql_begin = "BEGIN IMMEDIATE TRANSACTION;"

abbrev pub sql_commit : String
sql_commit = "COMMIT;"

abbrev pub sql_rollback : String
sql_rollback = "ROLLBACK;"

abbrev pub sql_delete_transactions : String
sql_delete_transactions = "DELETE FROM transactions;"

abbrev pub sql_delete_accounts : String
sql_delete_accounts = "DELETE FROM accounts;"

abbrev pub sql_schema : String
sql_schema =
    "CREATE TABLE accounts (vpa TEXT PRIMARY KEY, holderName TEXT NOT NULL, balance INTEGER NOT NULL, version INTEGER NOT NULL DEFAULT 0); CREATE TABLE transactions (id INTEGER PRIMARY KEY AUTOINCREMENT, packetHash TEXT NOT NULL UNIQUE, senderVpa TEXT NOT NULL, receiverVpa TEXT NOT NULL, amount INTEGER NOT NULL, signedAt INTEGER NOT NULL, settledAt INTEGER NOT NULL, bridgeNodeId TEXT NOT NULL, hopCount INTEGER NOT NULL, status TEXT NOT NULL); CREATE INDEX idx_packet_hash ON transactions(packetHash);"

abbrev pub sql_seed : String
sql_seed =
    "INSERT INTO accounts (vpa, holderName, balance, version) VALUES ('alice@demo', 'Alice', 500000, 0), ('bob@demo', 'Bob', 100000, 0), ('carol@demo', 'Carol', 250000, 0), ('dave@demo', 'Dave', 50000, 0);"
