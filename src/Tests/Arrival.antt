-- ===== src/Tests/Arrival.antt =====
-- A packet that is encrypted, uploaded and settled, with the stand-ins for OpenSSL, JSON and SQLite.
use text.Mathlib.TextEquality.{eq_iff}
use upi_w_o_internet.Common.{String, ◌≡◌, ◌≢◌, refl, none, some, [], ◌∷◌, take, arith}
use upi_w_o_internet.Common.Int.{pos, ◌+ℤ◌, ◌-ℤ◌, sub64, wrap64}
use upi_w_o_internet.Common.Bytes.{bytes_of_text, text_of_bytes}
use upi_w_o_internet.Common.Result.{ok}
use upi_w_o_internet.Common.Map.{lookup}
use upi_w_o_internet.Common.Text.{c_str}
use upi_w_o_internet.Model.Records.{Account, MeshPacket}
use upi_w_o_internet.Model.Tables.{Store, find_account}
use upi_w_o_internet.Service.Settlement.Refinement.{at_rest}
use upi_w_o_internet.Service.Bridge.{Readings, ingest, freshness, age_seconds}
use upi_w_o_internet.Service.Bridge.Settling.{paid_result}
use upi_w_o_internet.Service.Idempotency.{new_seen}
use upi_w_o_internet.Crypto.Hex.{to_hex}
use upi_w_o_internet.Crypto.HybridCrypto.{hash_ciphertext}
use upi_w_o_internet.Crypto.Service.{hash_text, hybrid_service}
use upi_w_o_internet.Crypto.Service.Arrival.{ingest-encrypt_text}
use upi_w_o_internet.Tests.MemoryDb.{Memory, memory_db, memory_db-IsSqlite, empty_memory}
use upi_w_o_internet.Tests.Ledger.{clock}
use upi_w_o_internet.Tests.ToySsl.{toy_ssl}
use upi_w_o_internet.Tests.LawfulSsl.{toy_ssl-IsOpenSsl}
use upi_w_o_internet.Tests.ToyJson.{
  toy_values, toy_values-IsJson, toy_io, toy_io-IsSerializer, rupees_500,
}
use upi_w_o_internet.Tests.Delivery.{sealed_payment, encrypt_text_test}

abbrev alice : Account
alice = record { vpa = "alice@upi"; holder_name = "Alice"; balance = pos 6000000; version = pos 0 }

abbrev bob : Account
bob = record { vpa = "bob@upi"; holder_name = "Bob"; balance = pos 100; version = pos 0 }

abbrev store : Store
store = record { accounts = alice ∷ bob ∷ []; transactions = []; sequence = 0 }

abbrev memory : Memory
memory = record empty_memory { tables = at_rest store }

abbrev readings : Readings
readings = record { claimed_at = pos 1690000001; checked_at = pos 1690000002; settled_at = clock }

abbrev packet : MeshPacket
packet = record {
  packet_id = "p1";
  ttl = pos 5;
  created_at = pos 1690000000;
  ciphertext = sealed_payment;
}

abbrev sealed_hash : String
sealed_hash = text_of_bytes (to_hex (take 32 (bytes_of_text sealed_payment)))

hash_test : hash_text toy_ssl toy_values toy_io tt sealed_payment ≡ ok sealed_hash
unfolding hash_text hash_ciphertext
hash_test = refl

fresh_test : freshness (pos 1690000002) (pos 1690000000) ≡ none
unfolding freshness age_seconds sub64 wrap64 ◌-ℤ◌
fresh_test = refl

view_test : (memory_db-IsSqlite).view memory ≡ at_rest store
unfolding memory_db-IsSqlite
view_test = refl

not_self : c_str "alice@upi" ≢ c_str "bob@upi"
unfolding c_str
not_self e = ground (arith, eq_iff "alice@upi" "bob@upi")

ingest-encrypt_text_example :
    let (res, seen', d') =
      ingest
        (hybrid_service toy_ssl toy_values toy_io tt)
        memory_db
        readings
        packet
        "phone-bridge"
        (pos 1)
        (new_seen, memory) in
    (res ≡ paid_result sealed_hash (pos 1))
    × (find_account "bob@upi" ((memory_db-IsSqlite).view d').current.accounts
        ≡ some (record bob { balance = pos 5000100 }))
unfolding c_str lookup ◌+ℤ◌
ingest-encrypt_text_example =
    ingest-encrypt_text toy_ssl toy_values toy_io tt toy_ssl-IsOpenSsl toy_values-IsJson
      toy_io-IsSerializer memory_db memory_db-IsSqlite readings packet "phone-bridge" (pos 1)
      new_seen store memory sealed_hash 0 rupees_500 alice bob encrypt_text_test (omega arith)
      (omega arith, omega arith) view_test (omega arith) (ground arith) (omega arith) hash_test refl
      refl fresh_test not_self refl refl (omega arith) (omega arith) "bob@upi"
