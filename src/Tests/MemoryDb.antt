-- ===== src/Tests/MemoryDb.antt =====
-- An SQLite of this size: the tables themselves, with the statements of the source told apart by
-- their text. It meets what `IsSqlite` asks.
use mathlib.Core.List.{reverse}
use upi_w_o_internet.Common.{
  suc, String, refl, true, Option, none, some, List, [], ◌∷◌, map, take, get_elem?, arith,
  if◌then◌else◌,
}
use upi_w_o_internet.Common.Int.{ℤ, pos}
use upi_w_o_internet.Common.Text.{str_eq}
use upi_w_o_internet.Model.Sqlite.{
  Sqlite, Value, integer, text, Run, sql_find_account, sql_save_account, sql_all_accounts,
  sql_save_tx, sql_exists_tx, sql_top_tx, sql_begin, sql_commit, sql_rollback,
  sql_delete_transactions, sql_delete_accounts, sql_schema, sql_seed,
}
use upi_w_o_internet.Model.Tables.{
  Store, Tables, TransactionRow, account_row, transaction_row, find_account, option_list, upsert,
  has_hash, demo_accounts, done, append_row,
}
use upi_w_o_internet.Model.Documented.{IsSqlite, duplicate_hash}

pub record Memory : Type 0 where
  pub tables : Tables
  pub last_rowid : ℤ
  pub message : String

abbrev pub empty_store : Store
empty_store = record { accounts = []; transactions = []; sequence = 0 }

abbrev pub empty_memory : Memory
empty_memory = record {
  tables = record { current = empty_store; saved = none };
  last_rowid = pos 0;
  message = "";
}

abbrev set_store : Store → Memory → Memory
set_store s m = record m { tables = record m.tables { current = s } }

abbrev misuse : Run
misuse = record { rows = []; error = some "bad parameter or other API misuse" }

abbrev seed : Memory → Option String × Memory
seed m = elim m.tables.current.accounts [
  | [] ↦ (none, set_store (record m.tables.current { accounts = demo_accounts }) m)
  | a ∷ as' ↦ (some "UNIQUE constraint failed: accounts.vpa", m)
]

abbrev begin : Memory → Option String × Memory
begin m = elim m.tables.saved [
  | none ↦ (none, record m { tables = record m.tables { saved = some m.tables.current } })
  | some s ↦ (some "cannot start a transaction within a transaction", m)
]

abbrev commit : Memory → Option String × Memory
commit m = elim m.tables.saved [
  | none ↦ (some "cannot commit - no transaction is active", m)
  | some s ↦ (none, record m { tables = record m.tables { saved = none } })
]

abbrev rollback : Memory → Option String × Memory
rollback m = elim m.tables.saved [
  | none ↦ (some "cannot rollback - no transaction is active", m)
  | some s ↦ (none, record m { tables = record { current = s; saved = none } })
]

abbrev exec : String → Memory → Option String × Memory
exec sql m =
    if str_eq sql sql_schema
    then (none, set_store empty_store m)
    else if str_eq sql sql_seed
    then seed m
    else if str_eq sql sql_begin
    then begin m
    else if str_eq sql sql_commit
    then commit m
    else if str_eq sql sql_rollback
    then rollback m
    else if str_eq sql sql_delete_transactions
    then (none, set_store (record m.tables.current { transactions = [] }) m)
    else if str_eq sql sql_delete_accounts
    then (none, set_store (record m.tables.current { accounts = [] }) m)
    else (some "near: syntax error", m)

abbrev find : List Value → Memory → Run × Memory
find (text k ∷ []) m =
    (done (map account_row (option_list (find_account k m.tables.current.accounts))), m)
find _ m = (misuse, m)

abbrev save : List Value → Memory → Run × Memory
save (text v ∷ text h ∷ integer b ∷ integer n ∷ []) m = (
  done [],
  set_store
      (record m.tables.current {
        accounts =
            upsert (record { vpa = v; holder_name = h; balance = b; version = n })
              m.tables.current.accounts;
      })
      m,
)
save _ m = (misuse, m)

abbrev insert_row : TransactionRow → Memory → Run × Memory
insert_row t m =
    if has_hash t.packet_hash m.tables.current.transactions
    then (record { rows = []; error = some duplicate_hash }, record m { message = duplicate_hash })
    else (
      done [],
      record (set_store (append_row t m.tables.current) m) {
        last_rowid = pos (suc m.tables.current.sequence);
      },
    )

abbrev insert : List Value → Memory → Run × Memory
insert
      (text h
        ∷ text s
        ∷ text r
        ∷ integer a
        ∷ integer g
        ∷ integer e
        ∷ text b
        ∷ integer c
        ∷ text u
        ∷ [])
      m =
    insert_row
      (record {
        id = 0;
        packet_hash = h;
        sender_vpa = s;
        receiver_vpa = r;
        amount = a;
        signed_at = g;
        settled_at = e;
        bridge_node_id = b;
        hop_count = c;
        status = u;
      })
      m
insert _ m = (misuse, m)

abbrev exists : List Value → Memory → Run × Memory
exists (text h ∷ []) m =
    (done (if has_hash h m.tables.current.transactions then (integer (pos 1) ∷ []) ∷ [] else []), m)
exists _ m = (misuse, m)

abbrev run : String → List Value → Memory → Run × Memory
run sql ps m =
    if str_eq sql sql_find_account
    then find ps m
    else if str_eq sql sql_save_account
    then save ps m
    else if str_eq sql sql_all_accounts
    then (done (map account_row m.tables.current.accounts), m)
    else if str_eq sql sql_save_tx
    then insert ps m
    else if str_eq sql sql_exists_tx
    then exists ps m
    else if str_eq sql sql_top_tx
    then (done (map transaction_row (take 20 (reverse m.tables.current.transactions))), m)
    else (misuse, m)

abbrev text_of : Option Value → String
text_of (some (text s)) = s
text_of _ = ""

abbrev integer_of : Option Value → ℤ
integer_of (some (integer n)) = n
integer_of _ = pos 0

abbrev pub memory_db : Sqlite
memory_db = record {
  Db = Memory;
  open_error = none;
  opened = empty_memory;
  exec = exec;
  prepares = λ sql m. true;
  run = run;
  last_insert_rowid = λ m. m.last_rowid;
  errmsg = λ m. m.message;
  column_text = λ row i. text_of (get_elem? row i);
  column_int64 = λ row i. integer_of (get_elem? row i);
  column_int = λ row i. integer_of (get_elem? row i);
}

unfoldable pub memory_db-IsSqlite : IsSqlite memory_db
memory_db-IsSqlite = record {
  view = λ m. m.tables;
  opens = refl;
  schema = (refl, refl);
  seeds = λ m e. ground arith;
  prepares_find = λ m. refl;
  prepares_save = λ m. refl;
  prepares_all = λ m. refl;
  prepares_tx = λ m. refl;
  prepares_exists = λ m. refl;
  prepares_top = λ m. refl;
  finds = λ k m. (refl, refl);
  saves = λ a m. (refl, refl);
  lists = λ m. (refl, refl);
  inserts = λ t m new room. ground arith;
  refuses = λ t m old. ground arith;
  exists_yes = λ h m e. ground arith;
  exists_no = λ h m e. ground arith;
  tops = λ m. (refl, refl);
  begins = λ m e. ground arith;
  commits = λ m s e. ground arith;
  rolls_back = λ m s e. ground arith;
  deletes_transactions = λ m. (refl, refl);
  deletes_accounts = λ m. (refl, refl);
  texts = λ row i s e. rw e refl;
  int64s = λ row i n e. rw e refl;
  ints = λ row i n h e. rw e refl;
}
