-- ===== src/Crypto/Service/Arrival.antt =====
-- An instruction on its way from the sender's phone to the accounts.
use upi_w_o_internet.Common.{ℕ, suc, String, ◌≡◌, ◌≢◌, false, none, some, if◌then◌else◌}
use upi_w_o_internet.Common.Int.{ℤ, pos, ◌+ℤ◌, ◌-ℤ◌, ◌≤ℤ◌, ◌<ℤ◌, IsInt64}
use upi_w_o_internet.Common.Map.{lookup}
use upi_w_o_internet.Common.Result.{ok}
use upi_w_o_internet.Common.Text.{c_str, str_eq}
use upi_w_o_internet.Model.Records.{Account, MeshPacket, PaymentInstruction}
use upi_w_o_internet.Model.Sqlite.{Sqlite}
use upi_w_o_internet.Model.Tables.{Store, find_account, has_hash}
use upi_w_o_internet.Model.Documented.{IsSqlite}
use upi_w_o_internet.Model.Views.{stored_account}
use upi_w_o_internet.Model.Ledger.{IsLedger}
use upi_w_o_internet.Model.Json.{Json, instruction_to_json}
use upi_w_o_internet.Model.Json.Roundtrip.{IsJson}
use upi_w_o_internet.Model.Json.Rounding.{IsExact}
use upi_w_o_internet.Service.Idempotency.{Seen}
use upi_w_o_internet.Service.Settlement.Refinement.{at_rest, HasRoom}
use upi_w_o_internet.Service.Settlement.Conservation.{Fits}
use upi_w_o_internet.Service.Bridge.{Readings, ingest, freshness}
use upi_w_o_internet.Service.Bridge.Settling.{paid_result, ingest-settles}
use upi_w_o_internet.Crypto.OpenSsl.{OpenSsl}
use upi_w_o_internet.Crypto.Laws.{IsOpenSsl}
use upi_w_o_internet.Crypto.Service.{Serializer, encrypt_text, hash_text, hybrid_service}
use upi_w_o_internet.Crypto.Service.Delivery.{IsSerializer, read_instruction-encrypt_text}

module _ (ssl : OpenSsl) (json : Json) (io : Serializer json) (pair : ssl.Key)
    (laws : IsOpenSsl ssl pair) (json_laws : IsJson json) (io_laws : IsSerializer json io)
    (q : Sqlite) (q_laws : IsSqlite q) where
  open q_laws use {view}

  -- A packet with an instruction that the sender encrypted for the server's key is settled by the
  -- first upload: the outcome is SETTLED with the next id, the receiver has the amount more and the
  -- sender has it less, and every other account is as it was. The hash must be neither claimed nor in
  -- the log, the instruction fresh, the accounts two that are known, and the amount positive, covered
  -- and at most 2^51 paise; on a sound ledger whose sum fits 64 bits, with no SQL transaction open
  -- and an id left, if OpenSSL and the JSON library do what their laws say.
  pub ingest-encrypt_text :
      (t : Readings) (p : MeshPacket) (b : String) (n : ℤ) (seen : Seen) (s : Store) (d : q.Db)
      (h : String) (drawn : ℕ) (i : PaymentInstruction) (sender receiver : Account)
      → encrypt_text ssl json io pair drawn (instruction_to_json json i) ≡ ok p.ciphertext
      → IsExact i.amount
      → IsInt64 i.signed_at
      → view d ≡ at_rest s
      → HasRoom s
      → IsLedger s.accounts
      → Fits s.accounts
      → hash_text ssl json io pair p.ciphertext ≡ ok h
      → lookup h seen.seen ≡ none
      → has_hash (c_str h) s.transactions ≡ false
      → freshness t.checked_at i.signed_at ≡ none
      → c_str i.sender_vpa ≢ c_str i.receiver_vpa
      → find_account (c_str i.sender_vpa) s.accounts ≡ some sender
      → find_account (c_str i.receiver_vpa) s.accounts ≡ some receiver
      → pos 0 <ℤ i.amount
      → i.amount ≤ℤ sender.balance
      → (k : String)
      → let (res, seen', d') = ingest (hybrid_service ssl json io pair) q t p b n (seen, d) in
        (res ≡ paid_result h (pos (suc s.sequence)))
        × (find_account k (view d').current.accounts ≡ (
            if str_eq (c_str i.receiver_vpa) k
            then some (stored_account (record receiver { balance = receiver.balance +ℤ i.amount }))
            else if str_eq (c_str i.sender_vpa) k
            then some (stored_account (record sender { balance = sender.balance -ℤ i.amount }))
            else find_account k s.accounts))
  ingest-encrypt_text t p b n seen s d h drawn i sender receiver sealed exact time e room ledger
        fits hashes unheld new =
      ingest-settles (hybrid_service ssl json io pair) q q_laws t p b n seen s d h i sender receiver
        e room ledger fits hashes unheld new
        (read_instruction-encrypt_text ssl json io pair q laws json_laws io_laws drawn i
          p.ciphertext exact time sealed)
