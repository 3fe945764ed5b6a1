-- ===== src/Model/Tables.antt =====
-- What the tables of the schema in model/Database.cpp hold, and how the statements change them.
use upi_w_o_internet.Common.{
  ℕ, suc, String, Bool, true, false, Option, none, some, List, [], ◌∷◌, ◌++◌, if◌then◌else◌,
}
use upi_w_o_internet.Common.Int.{ℤ, pos}
use upi_w_o_internet.Common.Text.{str_eq}
use upi_w_o_internet.Model.Records.{Account}
use upi_w_o_internet.Model.Sqlite.{Value, integer, text, Row, Run}

-- What the tables hold.
pub record TransactionRow : Type 0 where
  pub id : ℕ
  pub packet_hash : String
  pub sender_vpa : String
  pub receiver_vpa : String
  pub amount : ℤ
  pub signed_at : ℤ
  pub settled_at : ℤ
  pub bridge_node_id : String
  pub hop_count : ℤ
  pub status : String

-- Accounts by rowid, transactions by id, and the last id that AUTOINCREMENT gave out.
pub record Store : Type 0 where
  pub accounts : List Account
  pub transactions : List TransactionRow
  pub sequence : ℕ

-- `saved` is the state to which an open transaction rolls back.
pub record Tables : Type 0 where
  pub current : Store
  pub saved : Option Store

abbrev pub account_row : Account → Row
account_row a = text a.vpa ∷ text a.holder_name ∷ integer a.balance ∷ integer a.version ∷ []

abbrev pub transaction_row : TransactionRow → Row
transaction_row t =
    integer (pos t.id)
    ∷ text t.packet_hash
    ∷ text t.sender_vpa
    ∷ text t.receiver_vpa
    ∷ integer t.amount
    ∷ integer t.signed_at
    ∷ integer t.settled_at
    ∷ text t.bridge_node_id
    ∷ integer t.hop_count
    ∷ text t.status
    ∷ []

-- A primary key: at most one row fits.
abbrev pub find_account : String → List Account → Option Account
find_account k [] = none
find_account k (a ∷ as') = if str_eq a.vpa k then some a else find_account k as'

abbrev pub option_list {ℓ} : {A : Type ℓ} → Option A → List A
option_list none = []
option_list (some a) = a ∷ []

-- INSERT … ON CONFLICT(vpa) DO UPDATE
abbrev pub upsert : Account → List Account → List Account
upsert b [] = b ∷ []
upsert b (a ∷ as') = if str_eq a.vpa b.vpa then b ∷ as' else a ∷ upsert b as'

abbrev pub has_hash : String → List TransactionRow → Bool
has_hash h [] = false
has_hash h (t ∷ ts) = if str_eq t.packet_hash h then true else has_hash h ts

abbrev pub demo_accounts : List Account
demo_accounts =
    record { vpa = "alice@demo"; holder_name = "Alice"; balance = pos 500000; version = pos 0 }
    ∷ record { vpa = "bob@demo"; holder_name = "Bob"; balance = pos 100000; version = pos 0 }
    ∷ record { vpa = "carol@demo"; holder_name = "Carol"; balance = pos 250000; version = pos 0 }
    ∷ record { vpa = "dave@demo"; holder_name = "Dave"; balance = pos 50000; version = pos 0 }
    ∷ []

abbrev pub done : List Row → Run
done rows = record { rows = rows; error = none }

-- The row that an INSERT adds, and the parameters that it binds.
abbrev pub insert_parameters : TransactionRow → List Value
insert_parameters t =
    text t.packet_hash
    ∷ text t.sender_vpa
    ∷ text t.receiver_vpa
    ∷ integer t.amount
    ∷ integer t.signed_at
    ∷ integer t.settled_at
    ∷ text t.bridge_node_id
    ∷ integer t.hop_count
    ∷ text t.status
    ∷ []

abbrev pub append_row : TransactionRow → Store → Store
append_row t s = record {
  accounts = s.accounts;
  transactions = s.transactions ++ record t { id = suc s.sequence } ∷ [];
  sequence = suc s.sequence;
}
