-- ===== src/Tests/Ledger.antt =====
-- Settlement on the demo accounts, in the instance of SQLite of MemoryDb.
use text.Mathlib.TextEquality.{eq_iff}
use upi_w_o_internet.Common.{◌∷◌, List, ℕ, String, ◌≡◌, refl, ◌≢◌, some, none, [], arith}
use upi_w_o_internet.Common.Int.{ℤ, pos, ◌+ℤ◌, ◌-ℤ◌, ◌<ℤ◌, add64, sub64, wrap64}
use upi_w_o_internet.Common.Result.{ok, err, Exception}
use upi_w_o_internet.Common.Text.{c_str}
use upi_w_o_internet.Model.Records.{Account, Transaction, PaymentInstruction, settled}
use upi_w_o_internet.Model.Tables.{Store, demo_accounts, find_account}
use upi_w_o_internet.Model.Views.{Yields}
use upi_w_o_internet.Model.Ledger.{total, IsLedger}
use upi_w_o_internet.Model.Database
use upi_w_o_internet.Model.AccountRepository
use upi_w_o_internet.Model.TransactionRepository
use upi_w_o_internet.Service.Settlement.{
  Request, settle, settle_attempts, settle_locked, read_accounts, write_settlement,
}
use upi_w_o_internet.Service.Settlement.Spec.{settle_spec}
use upi_w_o_internet.Service.Settlement.Refinement.{at_rest, settle-refines}
use upi_w_o_internet.Service.Settlement.Conservation.{settle-total, settle-total_self, settle-moves}
use upi_w_o_internet.Service.Settlement.Once.{settle_all, settle-once}
use upi_w_o_internet.Tests.MemoryDb.{Memory, memory_db, memory_db-IsSqlite, empty_memory}

abbrev pub demo_store : Store
demo_store = record { accounts = demo_accounts; transactions = []; sequence = 0 }

abbrev pub demo_memory : Memory
demo_memory = record empty_memory { tables = record { current = demo_store; saved = none } }

abbrev pub clock : ℕ → ℤ
clock attempt = pos 1700000000000

-- Rs 100 from `sender` to `receiver`.
abbrev pub pay : String → String → PaymentInstruction
pay sender receiver = record {
  sender_vpa = sender;
  receiver_vpa = receiver;
  amount = pos 10000;
  pin_hash = "";
  nonce = "n-1";
  signed_at = pos 1699999990000;
}

abbrev pub request : String → String → Request
request sender receiver = record {
  instruction = pay sender receiver;
  packet_hash = "h1";
  bridge_node_id = "phone-bridge";
  hop_count = pos 1;
}

abbrev pub alice_to_bob : Request
alice_to_bob = request "alice@demo" "bob@demo"

abbrev pub alice_to_alice : Request
alice_to_alice = request "alice@demo" "alice@demo"

abbrev pub alice : Account
alice = record { vpa = "alice@demo"; holder_name = "Alice"; balance = pos 500000; version = pos 0 }

abbrev pub bob : Account
bob = record { vpa = "bob@demo"; holder_name = "Bob"; balance = pos 100000; version = pos 0 }

pub view_demo : (memory_db-IsSqlite).view demo_memory ≡ at_rest demo_store
unfolding memory_db-IsSqlite
view_demo = refl

pub demo_accounts-IsLedger : IsLedger demo_accounts
demo_accounts-IsLedger = ground arith

pub demo_accounts_total : total demo_accounts <ℤ pos 9223372036854775808
unfolding ◌+ℤ◌
demo_accounts_total = omega arith

pub alice_not_bob : c_str "alice@demo" ≢ c_str "bob@demo"
unfolding c_str
alice_not_bob e = ground (arith, eq_iff "alice@demo" "bob@demo")

abbrev paid : Transaction
paid = record {
  id = pos 1;
  packet_hash = "h1";
  sender_vpa = "alice@demo";
  receiver_vpa = "bob@demo";
  amount = pos 10000;
  signed_at = pos 1699999990000;
  settled_at = pos 1700000000000;
  bridge_node_id = "phone-bridge";
  hop_count = pos 1;
  status = settled;
}

-- A run of the code itself.
settle_run : (settle memory_db alice_to_bob clock demo_memory).0 ≡ ok paid
unfolding settle settle_attempts settle_locked read_accounts write_settlement Database.execute
    AccountRepository.find_by_id AccountRepository.save TransactionRepository.save c_str add64 sub64
    wrap64 ◌+ℤ◌ ◌-ℤ◌
settle_run = refl

settle-refines_example :
    let end = settle_spec alice_to_bob (clock 1) demo_store in
    Yields memory_db memory_db-IsSqlite
      (settle memory_db alice_to_bob clock demo_memory)
      end.0
      (at_rest end.1)
settle-refines_example =
    settle-refines memory_db memory_db-IsSqlite alice_to_bob clock demo_store demo_memory view_demo
      (omega arith)

settle-total_example :
    let s' =
      ((memory_db-IsSqlite).view (settle memory_db alice_to_bob clock demo_memory).1).current in
    (total s'.accounts ≡ total demo_accounts) × IsLedger s'.accounts
settle-total_example =
    settle-total memory_db memory_db-IsSqlite alice_to_bob clock demo_store demo_memory view_demo
      (omega arith) demo_accounts-IsLedger demo_accounts_total alice_not_bob

settle-total_self_example :
    total
      ((memory_db-IsSqlite).view
        (settle memory_db alice_to_alice clock demo_memory).1).current.accounts
    ≡ total demo_accounts +ℤ pos 10000
unfolding c_str ◌+ℤ◌
settle-total_self_example =
    settle-total_self memory_db memory_db-IsSqlite alice_to_alice clock demo_store demo_memory alice
      view_demo (omega arith) demo_accounts-IsLedger demo_accounts_total refl refl (omega arith)
      (omega arith) (omega arith) refl

settle-moves_example :
    find_account "bob@demo"
      ((memory_db-IsSqlite).view
        (settle memory_db alice_to_bob clock demo_memory).1).current.accounts
    ≡ some (record bob { balance = pos 110000 })
unfolding c_str ◌+ℤ◌
settle-moves_example =
    settle-moves memory_db memory_db-IsSqlite alice_to_bob clock demo_store demo_memory alice bob
      view_demo (omega arith) demo_accounts-IsLedger demo_accounts_total alice_not_bob refl refl
      (omega arith) (omega arith) refl "bob@demo"

-- Bob has paid Carol in between.
abbrev between : List (Request × (ℕ → ℤ))
between = (record (request "bob@demo" "carol@demo") { packet_hash = "h2" }, clock) ∷ []

settle-once_example :
    let d' =
      settle_all memory_db memory_db-IsSqlite between
        (settle memory_db alice_to_bob clock demo_memory).1 in
    ((e : Exception) × ((settle memory_db alice_to_alice clock d').0 ≡ err e))
    × ((memory_db-IsSqlite).view (settle memory_db alice_to_alice clock d').1
        ≡ (memory_db-IsSqlite).view d')
settle-once_example =
    settle-once memory_db memory_db-IsSqlite alice_to_bob alice_to_alice clock clock between
      demo_store demo_memory paid view_demo (omega arith) settle_run refl
