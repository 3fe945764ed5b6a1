-- ===== src/Tests/Overlap.antt =====
-- Two first attempts of `settle` that both read before either writes, from one sender.
use text.Mathlib.TextEquality.{eq_iff}
use upi_w_o_internet.Common.{◌≡◌, ◌≢◌, refl, arith}
use upi_w_o_internet.Common.Result.{ok}
use upi_w_o_internet.Model.Records.{Account, settled}
use upi_w_o_internet.Common.Int.{pos, ◌+ℤ◌, ◌-ℤ◌, add64, sub64, wrap64}
use upi_w_o_internet.Common.Text.{c_str}
use upi_w_o_internet.Model.Database
use upi_w_o_internet.Model.AccountRepository
use upi_w_o_internet.Model.TransactionRepository
use upi_w_o_internet.Model.Tables.{demo_accounts}
use upi_w_o_internet.Model.Ledger.{total}
use upi_w_o_internet.Service.Settlement.{
  Request, new_transaction, settle_locked, read_accounts, write_settlement,
}
use upi_w_o_internet.Service.Settlement.Interleaving.{overlapped}
use upi_w_o_internet.Service.Settlement.Interleaving.LostUpdate.{overlapped-loses}
use upi_w_o_internet.Tests.MemoryDb.{memory_db, memory_db-IsSqlite}
use upi_w_o_internet.Tests.Ledger.{
  request, demo_memory, demo_store, alice, bob, view_demo, demo_accounts-IsLedger,
  demo_accounts_total, alice_not_bob,
}

abbrev pub alice_to_carol : Request
alice_to_carol = record (request "alice@demo" "carol@demo") { packet_hash = "h2" }

-- Rs 100 to Bob and Rs 100 to Carol are paid, and Alice loses Rs 100.
overlapped_run :
    total
      (overlapped memory_db
        (request "alice@demo" "bob@demo")
        alice_to_carol
        (pos 1)
        (pos 2)
        demo_memory).1.tables.current.accounts
    ≡ total demo_accounts +ℤ pos 10000
unfolding overlapped settle_locked read_accounts write_settlement Database.execute
    AccountRepository.find_by_id AccountRepository.save TransactionRepository.save c_str add64 sub64
    wrap64 ◌+ℤ◌ ◌-ℤ◌
overlapped_run = refl

abbrev carol : Account
carol = record { vpa = "carol@demo"; holder_name = "Carol"; balance = pos 250000; version = pos 0 }

alice_not_carol : c_str "alice@demo" ≢ c_str "carol@demo"
unfolding c_str
alice_not_carol e = ground (arith, eq_iff "alice@demo" "carol@demo")

bob_not_carol : c_str "bob@demo" ≢ c_str "carol@demo"
unfolding c_str
bob_not_carol e = ground (arith, eq_iff "bob@demo" "carol@demo")

hashes_differ : c_str "h1" ≢ c_str "h2"
unfolding c_str
hashes_differ e = ground (arith, eq_iff "h1" "h2")

overlapped-loses_example :
    let (result, end) =
      overlapped memory_db
        (request "alice@demo" "bob@demo")
        alice_to_carol
        (pos 1)
        (pos 2)
        demo_memory in
    (result
      ≡ ok (
        record (new_transaction (request "alice@demo" "bob@demo") (pos 1) settled) { id = pos 1 },
        record (new_transaction alice_to_carol (pos 2) settled) { id = pos 2 },
      ))
    × (total ((memory_db-IsSqlite).view end).current.accounts ≡ total demo_accounts +ℤ pos 10000)
unfolding c_str
overlapped-loses_example =
    overlapped-loses memory_db memory_db-IsSqlite (request "alice@demo" "bob@demo") alice_to_carol
      (pos 1) (pos 2) demo_store demo_memory alice bob carol view_demo demo_accounts-IsLedger
      demo_accounts_total refl alice_not_bob alice_not_carol bob_not_carol refl refl refl
      (omega arith) (omega arith) (omega arith) (omega arith) refl refl hashes_differ (omega arith)
