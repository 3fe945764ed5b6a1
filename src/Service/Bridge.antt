-- ===== src/Service/Bridge.antt =====
-- service/BridgeIngestionService.cpp: hash, claim, decrypt, check the age, settle.
pub mod Freshness
pub mod Pipeline
pub mod Settling
pub mod Keeping
use Prim.Native.String.{◌++◌ as ◌<>◌}
use upi_w_o_internet.Common.{ℕ, String, true, false, Option, none, some, if◌then◌else◌}
use upi_w_o_internet.Common.Int.{ℤ, pos, negsuc, ltb_ℤ, sub64, quot_ℕ}
use upi_w_o_internet.Common.Result.{Result, ok, err, Exception, what}
use upi_w_o_internet.Model.Records.{MeshPacket, PaymentInstruction, Transaction, status_to_string}
use upi_w_o_internet.Model.Sqlite.{Sqlite}
use upi_w_o_internet.Service.Idempotency.{Seen, claim}
use upi_w_o_internet.Service.Settlement.{Request, settle}

pub record IngestResult : Type 0 where
  pub outcome : String
  pub packet_hash : String
  pub reason : String
  pub transaction_id : Option ℤ

-- What the pipeline asks of HybridCryptoService and of the JSON conversion of an instruction.
pub record CryptoService : Type 1 where
  pub Json : Type 0
  pub hash_ciphertext : String → Result String
  pub decrypt : String → Result Json
  pub get_instruction : Json → Result PaymentInstruction

-- The readings of the clock during one call: at the claim, at the check of the age, and in each
-- attempt to settle.
pub record Readings : Type 0 where
  pub claimed_at : ℤ
  pub checked_at : ℤ
  pub settled_at : ℕ → ℤ

abbrev pub max_age_seconds : ℤ
max_age_seconds = pos 86400

-- The age in whole seconds, and the reason to reject it.
unfoldable pub age_seconds : ℤ → ℤ → ℤ
age_seconds now signed_at = quot_ℕ (sub64 now signed_at) 1000

unfoldable pub freshness : ℤ → ℤ → Option String
unfolding age_seconds
freshness now signed_at =
    if ltb_ℤ max_age_seconds (age_seconds now signed_at)
    then some "stale_packet"
    else if ltb_ℤ (age_seconds now signed_at) (negsuc 299)
    then some "future_dated"
    else none

abbrev pub invalid_result : String → String → IngestResult
invalid_result packet_hash reason = record {
  outcome = "INVALID";
  packet_hash = packet_hash;
  reason = reason;
  transaction_id = none;
}

abbrev pub duplicate_result : String → IngestResult
duplicate_result packet_hash = record {
  outcome = "DUPLICATE_DROPPED";
  packet_hash = packet_hash;
  reason = "";
  transaction_id = none;
}

-- The handler of the outer `try`.
abbrev pub internal_error : Exception → IngestResult
internal_error e = invalid_result "?" ("internal_error: " <> what e)

module _ (c : CryptoService) (q : Sqlite) where
  open c use {hash_ciphertext, decrypt, get_instruction}
  open q use {Db}

  -- The inner `try`.
  unfoldable pub read_instruction : String → Result PaymentInstruction
  read_instruction ciphertext = elim (decrypt ciphertext) [
    | ok j ↦ get_instruction j
    | err e ↦ err e
  ]

  abbrev pub settled_result : String → Result Transaction → IngestResult
  settled_result packet_hash (err e) = internal_error e
  settled_result packet_hash (ok tx) = record {
    outcome = status_to_string tx.status;
    packet_hash = packet_hash;
    reason = "";
    transaction_id = some tx.id;
  }

  -- Steps 2 to 4, for a hash that this call was the first to claim.
  unfoldable pub ingest_claimed :
      Readings → MeshPacket → String → ℤ → String → Db → IngestResult × Db
  ingest_claimed t packet bridge_node_id hop_count packet_hash d =
      elim (read_instruction packet.ciphertext) [
        | err e ↦ (invalid_result packet_hash "decryption_failed", d)
        | ok i ↦ elim (freshness t.checked_at i.signed_at) [
          | some reason ↦ (invalid_result packet_hash reason, d)
          | none ↦
              let (tx, d') =
                settle q
                  (record {
                    instruction = i;
                    packet_hash = packet_hash;
                    bridge_node_id = bridge_node_id;
                    hop_count = hop_count;
                  })
                  t.settled_at d in
              (settled_result packet_hash tx, d')
        ]
      ]

  unfoldable pub ingest : Readings → MeshPacket → String → ℤ → Seen × Db → IngestResult × Seen × Db
  ingest t packet bridge_node_id hop_count (s, d) = elim (hash_ciphertext packet.ciphertext) [
    | err e ↦ (internal_error e, s, d)
    | ok packet_hash ↦
        let (first, s') = claim t.claimed_at packet_hash s in
        elim first [
          | false ↦ (duplicate_result packet_hash, s', d)
          | true ↦
              let (result, d') = ingest_claimed t packet bridge_node_id hop_count packet_hash d in
              (result, s', d')
        ]
  ]
