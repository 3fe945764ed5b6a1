-- ===== src/Tests/Pipeline.antt =====
-- The pipeline on a packet, with a cryptography that hides nothing.
use upi_w_o_internet.Common.{String, ◌≡◌, refl, ◌≢◌, true, some, none, [], ◌∷◌, arith, ◌↔◌}
use upi_w_o_internet.Common.Int.{
  int_laws, ℤ, pos, negsuc, ◌+ℤ◌, ◌-ℤ◌, ◌≤ℤ◌, ◌<ℤ◌, add64, sub64, wrap64,
}
use upi_w_o_internet.Common.Map.{lookup, insert}
use upi_w_o_internet.Common.Result.{ok, ok-injective}
use upi_w_o_internet.Common.Text.{c_str}
use upi_w_o_internet.Model.Records.{MeshPacket, PaymentInstruction}
use upi_w_o_internet.Model.Tables.{Store, demo_accounts}
use upi_w_o_internet.Model.Ledger.{total, IsLedger}
use upi_w_o_internet.Service.Idempotency.{
  erase_before, step, Seen, new_seen, claim, evict_expired, claims, wakes, run,
}
use upi_w_o_internet.Service.Idempotency.Laws.{wins, wins-one, run-held, claim-evict_expired}
use upi_w_o_internet.Model.Database
use upi_w_o_internet.Model.AccountRepository
use upi_w_o_internet.Model.TransactionRepository
use upi_w_o_internet.Service.Settlement.{
  settle, settle_attempts, settle_locked, read_accounts, write_settlement,
}
use upi_w_o_internet.Service.Settlement.Refinement.{at_rest}
use upi_w_o_internet.Service.Bridge.{
  CryptoService, Readings, ingest, ingest_claimed, read_instruction, freshness, duplicate_result,
}
use upi_w_o_internet.Service.Bridge.Freshness.{freshness-none_iff, freshness-claim}
use upi_w_o_internet.Service.Bridge.Pipeline.{
  Books, ingest-replay, ingest-Books, ingest-accepts, ingest-logged, ingest-total,
}
use upi_w_o_internet.Tests.MemoryDb.{Memory, memory_db, memory_db-IsSqlite, empty_memory}
use upi_w_o_internet.Tests.Ledger.{
  clock, pay, demo_memory, demo_store, view_demo, demo_accounts-IsLedger, demo_accounts_total,
  alice_not_bob,
}

abbrev pub open_crypto : CryptoService
open_crypto = record {
  Json = String;
  hash_ciphertext = λ b64. ok b64;
  decrypt = λ b64. ok b64;
  get_instruction = λ j. ok (pay "alice@demo" "bob@demo");
}

abbrev pub readings : Readings
readings = record {
  claimed_at = pos 1700000000000;
  checked_at = pos 1700000000001;
  settled_at = clock;
}

abbrev pub packet : MeshPacket
packet = record { packet_id = "p1"; ttl = pos 5; created_at = pos 1699999990000; ciphertext = "h1" }

abbrev held : Seen
held = record { seen = ("h1", pos 1700000000000) ∷ []; ttl_seconds = 86400 }

wins-one_example :
    wins "h1" (claims (pos 1) "h1" ∷ claims (pos 2) "h2" ∷ claims (pos 3) "h1" ∷ []) new_seen ≡ 1
unfolding lookup
wins-one_example =
    wins-one "h1" (claims (pos 1) "h1" ∷ claims (pos 2) "h2" ∷ claims (pos 3) "h1" ∷ []) new_seen
      (tt, (tt, (tt, tt))) refl

run-held_example :
    lookup "h1" (run (wakes (pos 1700086400000) ∷ claims (pos 5) "h1" ∷ []) held).seen
    ≡ some (pos 1700000000000)
unfolding lookup ◌-ℤ◌
run-held_example =
    run-held "h1" (wakes (pos 1700086400000) ∷ claims (pos 5) "h1" ∷ []) held (pos 1700000000000)
      (refl, tt) refl (omega arith)

claim-evict_expired_example :
    (claim (pos 1700086400002) "h1" (evict_expired (pos 1700086400001) held)).0 ≡ true
unfolding lookup ◌-ℤ◌
claim-evict_expired_example =
    claim-evict_expired "h1" (pos 1700086400001) (pos 1700086400002) held (pos 1700000000000)
      (refl, tt) refl (omega arith)

freshness-none_iff_example : (freshness (pos 1700000000001) (pos 1699999990000) ≡ none) ↔ (
    (negsuc 300998 ≤ℤ pos 1700000000001 -ℤ pos 1699999990000)
    × (pos 1700000000001 -ℤ pos 1699999990000 <ℤ pos 86401000))
freshness-none_iff_example =
    freshness-none_iff (pos 1700000000001) (pos 1699999990000) (omega arith) (omega arith)

-- Claimed, evicted more than a day later, and claimed again.
freshness-claim_example : freshness (pos 1700086400001) (pos 1699999990000) ≡ some "stale_packet"
unfolding ◌+ℤ◌ ◌-ℤ◌ claim run step evict_expired erase_before lookup insert sub64 wrap64
freshness-claim_example =
    freshness-claim "h1" new_seen (pos 1700000000000) (pos 1700086400001) (pos 1700086400001)
      (pos 1699999990000) (wakes (pos 1700086400001) ∷ []) tt refl refl (omega arith)
      (omega int_laws, tt) refl (omega arith) (omega arith) (omega arith)

ingest-replay_example :
    let (res, s', d') =
      ingest open_crypto memory_db readings packet "b1" (pos 0) (new_seen, demo_memory) in
    ingest open_crypto memory_db readings packet "b2" (pos 1) (s', d')
    ≡ (duplicate_result "h1", s', d')
ingest-replay_example =
    ingest-replay open_crypto memory_db readings readings packet packet "b1" "b2" (pos 0) (pos 1)
      new_seen demo_memory "h1" refl refl

ingest-Books_example :
    let end = ingest open_crypto memory_db readings packet "b1" (pos 0) (new_seen, demo_memory) in
    Books demo_store end.0 ((memory_db-IsSqlite).view end.2)
ingest-Books_example =
    ingest-Books open_crypto memory_db memory_db-IsSqlite readings packet "b1" (pos 0) new_seen
      demo_store demo_memory view_demo (omega arith)

-- A run of the code itself: the payment is settled under the id 1.
ingest_run :
    (ingest open_crypto memory_db readings packet "b1"
      (pos 0)
      (new_seen, demo_memory)).0.transaction_id
    ≡ some (pos 1)
unfolding ingest ingest_claimed claim lookup insert read_instruction freshness settle
    settle_attempts settle_locked read_accounts write_settlement Database.execute
    AccountRepository.find_by_id AccountRepository.save TransactionRepository.save c_str add64 sub64
    wrap64 ◌+ℤ◌ ◌-ℤ◌
ingest_run = refl

ingest-accepts_example :
    (h : String) × (i : PaymentInstruction) × (open_crypto.hash_ciphertext "h1" ≡ ok h)
    × (lookup {V = ℤ} h [] ≡ none)
    × (read_instruction open_crypto memory_db "h1" ≡ ok i)
    × (freshness (pos 1700000000001) i.signed_at ≡ none)
ingest-accepts_example =
    ingest-accepts open_crypto memory_db memory_db-IsSqlite readings packet "b1" (pos 0) new_seen
      demo_store demo_memory view_demo (omega arith) (pos 1) ingest_run

abbrev logged_store : Store
logged_store = record {
  accounts = demo_accounts;
  transactions =
      record {
        id = 1;
        packet_hash = "h1";
        sender_vpa = "alice@demo";
        receiver_vpa = "bob@demo";
        amount = pos 10000;
        signed_at = pos 1699999990000;
        settled_at = pos 1700000000000;
        bridge_node_id = "b1";
        hop_count = pos 0;
        status = "SETTLED";
      }
      ∷ [];
  sequence = 1;
}

abbrev logged_memory : Memory
logged_memory = record empty_memory { tables = record { current = logged_store; saved = none } }

view_logged : (memory_db-IsSqlite).view logged_memory ≡ at_rest logged_store
unfolding memory_db-IsSqlite
view_logged = refl

ingest-logged_example :
    let end = ingest open_crypto memory_db readings packet "b1" (pos 0) (new_seen, logged_memory) in
    (end.0.transaction_id ≡ none) × ((memory_db-IsSqlite).view end.2 ≡ at_rest logged_store)
unfolding c_str
ingest-logged_example =
    ingest-logged open_crypto memory_db memory_db-IsSqlite readings packet "b1" (pos 0) new_seen
      logged_store logged_memory view_logged (omega arith) "h1" refl refl

pub pays_bob :
    (i : PaymentInstruction)
    → read_instruction open_crypto memory_db "h1" ≡ ok i
    → c_str i.sender_vpa ≢ c_str i.receiver_vpa
unfolding read_instruction
pays_bob i e =
    let same : pay "alice@demo" "bob@demo" ≡ i = ok-injective e in rw (← same) alice_not_bob

ingest-total_example :
    let s' =
      ((memory_db-IsSqlite).view
        (ingest open_crypto memory_db readings packet "b1"
          (pos 0)
          (new_seen, demo_memory)).2).current in
    (total s'.accounts ≡ total demo_accounts) × IsLedger s'.accounts
ingest-total_example =
    ingest-total open_crypto memory_db memory_db-IsSqlite readings packet "b1" (pos 0) new_seen
      demo_store demo_memory view_demo (omega arith) demo_accounts-IsLedger demo_accounts_total
      pays_bob
