-- ===== src/Model/Views.antt =====
-- What the calls of model/ give and do, in terms of what the tables hold.
use upi_w_o_internet.Common.{
  suc, ◌<◌, String, ◌≡◌, refl, ap, ◌∙◌, true, false, Option, none, some, List, [], ◌∷◌, map, arith,
}
use upi_w_o_internet.Common.Int.{pos, half64}
use upi_w_o_internet.Common.Result.{Result, Action, ok, err, runtime_error, Exception, ◌>>=◌, catch}
use upi_w_o_internet.Common.Text.{c_str}
use upi_w_o_internet.Model.Records.{Account, Transaction, status_to_string}
use upi_w_o_internet.Model.Sqlite.{Sqlite}
use upi_w_o_internet.Model.Tables.{
  Store, Tables, TransactionRow, account_row, find_account, option_list, upsert, has_hash,
  append_row,
}
use upi_w_o_internet.Model.Documented.{IsSqlite}
use upi_w_o_internet.Model.AccountRepository
use upi_w_o_internet.Model.TransactionRepository

abbrev pub set_current : Store → Tables → Tables
set_current s t = record t { current = s }

-- The texts of an account as the C interface takes them.
abbrev pub stored_account : Account → Account
stored_account a = record a { vpa = c_str a.vpa; holder_name = c_str a.holder_name }

abbrev pub stored_row : Transaction → TransactionRow
stored_row t = record {
  id = 0;
  packet_hash = c_str t.packet_hash;
  sender_vpa = c_str t.sender_vpa;
  receiver_vpa = c_str t.receiver_vpa;
  amount = t.amount;
  signed_at = t.signed_at;
  settled_at = t.settled_at;
  bridge_node_id = c_str t.bridge_node_id;
  hop_count = t.hop_count;
  status = c_str (status_to_string t.status);
}

abbrev pub save_failure : String
save_failure = "Failed to execute tx save: UNIQUE constraint failed: transactions.packetHash"

module _ (q : Sqlite) (laws : IsSqlite q) where
  open q use {Db}
  open laws use {view}

  -- How a call ends: its result, and the tables after it.
  abbrev pub Yields : {A : Type 0} → Result A × Db → Result A → Tables → Type 0
  Yields end r t = (end.0 ≡ r) × (view end.1 ≡ t)

  -- Sequencing, and an exception that is caught.
  pub >>=-Yields :
      {A B : Type 0} (m : Action Db A) (f : A → Action Db B) (d : Db) (a : A) {r : Result B}
      {t u : Tables}
      → Yields (m d) (ok a) t
      → ((d' : Db) → view d' ≡ t → Yields (f a d') r u)
      → Yields ((m >>= f) d) r u
  >>=-Yields m f d a p k = rw (p.0, ◌>>=◌) (k (m d).1 p.1)

  pub >>=-Yields_err :
      {A B : Type 0} (m : Action Db A) (f : A → Action Db B) (d : Db) (e : Exception) {t : Tables}
      → Yields (m d) (err e) t
      → Yields ((m >>= f) d) (err e) t
  >>=-Yields_err m f d e p = rw (p.0, ◌>>=◌) (refl, p.1)

  pub catch-Yields :
      {A : Type 0} (m : Action Db A) (h : Exception → Action Db A) (d : Db) (a : A) {t : Tables}
      → Yields (m d) (ok a) t
      → Yields (catch m h d) (ok a) t
  catch-Yields m h d a p = rw (p.0, catch) (refl, p.1)

  pub catch-Yields_err :
      {A : Type 0} (m : Action Db A) (h : Exception → Action Db A) (d : Db) (e : Exception)
      {r : Result A} {t u : Tables}
      → Yields (m d) (err e) t
      → ((d' : Db) → view d' ≡ t → Yields (h e d') r u)
      → Yields (catch m h d) r u
  catch-Yields_err m h d e p k = rw (p.0, catch) (k (m d).1 p.1)

  read_account_row : (a : Account) → AccountRepository.read_account q (account_row a) ≡ a
  unfolding AccountRepository.read_account
  read_account_row a = ground (
    arith,
    laws.texts (account_row a) 0 a.vpa refl,
    laws.texts (account_row a) 1 a.holder_name refl,
    laws.int64s (account_row a) 2 a.balance refl,
    laws.int64s (account_row a) 3 a.version refl,
  )

  first_account_rows :
      (o : Option Account) → AccountRepository.first_account q (map account_row (option_list o)) ≡ o
  unfolding AccountRepository.first_account
  first_account_rows none = refl
  first_account_rows (some a) = ap some (read_account_row a)

  -- `findById` gives the account that the table holds, and changes nothing.
  pub find_by_id-Yields :
      (k : String) (d : Db)
      → Yields
          (AccountRepository.find_by_id q k d)
          (ok (find_account (c_str k) (view d).current.accounts))
          (view d)
  unfolding AccountRepository.find_by_id
  find_by_id-Yields k d = rw (laws.prepares_find d) (
    ap ok (
        ap (λ r. AccountRepository.first_account q r.rows) (laws.finds (c_str k) d).0
        ∙ first_account_rows (find_account (c_str k) (view d).current.accounts)),
    (laws.finds (c_str k) d).1,
  )

  -- `save` of an account replaces its row or adds one.
  pub save_account-Yields :
      (a : Account) (d : Db)
      → Yields (AccountRepository.save q a d) (ok tt) (
          set_current
            (record (view d).current {
              accounts = upsert (stored_account a) (view d).current.accounts;
            })
            (view d))
  unfolding AccountRepository.save
  save_account-Yields a d = rw (laws.prepares_save d) (refl, (laws.saves (stored_account a) d).1)

  map-read_account :
      (as' : List Account) → map (AccountRepository.read_account q) (map account_row as') ≡ as'
  map-read_account [] = refl
  map-read_account (a ∷ as') = cc (read_account_row a, map-read_account as')

  -- `findAll` lists the accounts of the table.
  pub find_all-Yields :
      (d : Db) → Yields (AccountRepository.find_all q d) (ok (view d).current.accounts) (view d)
  unfolding AccountRepository.find_all
  find_all-Yields d = rw (laws.prepares_all d) (
    ap ok (
        ap (λ r. map (AccountRepository.read_account q) r.rows) (laws.lists d).0
        ∙ map-read_account (view d).current.accounts),
    (laws.lists d).1,
  )

  -- A transaction with a new hash gets the next id.
  pub save_tx-Yields :
      (t : Transaction) (d : Db)
      → has_hash (c_str t.packet_hash) (view d).current.transactions ≡ false
      → suc (view d).current.sequence < half64
      → Yields
          (TransactionRepository.save q t d)
          (ok (record t { id = pos (suc (view d).current.sequence) }))
          (set_current (append_row (stored_row t) (view d).current) (view d))
  unfolding TransactionRepository.save
  save_tx-Yields t d new room =
      let p = laws.inserts (stored_row t) d new room in
      rw (laws.prepares_tx d, p.0, p.2) (refl, p.1)

  -- One with a hash that is there is refused.
  pub save_tx-Yields_err :
      (t : Transaction) (d : Db)
      → has_hash (c_str t.packet_hash) (view d).current.transactions ≡ true
      → Yields (TransactionRepository.save q t d) (err (runtime_error save_failure)) (view d)
  unfolding TransactionRepository.save
  save_tx-Yields_err t d old =
      let p = laws.refuses (stored_row t) d old in rw (laws.prepares_tx d, p.0, p.2) (refl, p.1)
