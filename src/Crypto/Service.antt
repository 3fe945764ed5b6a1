-- ===== src/Crypto/Service.antt =====
-- The crypto service that BridgeIngestionService is given: HybridCryptoService and the conversion of
-- an instruction, on a key pair. A `std::string` is a text of bytes. No context lives between calls.
pub mod Delivery
pub mod Arrival
use upi_w_o_internet.Common.{ℕ, String}
use upi_w_o_internet.Common.Bytes.{Bytes, bytes_of_text, text_of_bytes}
use upi_w_o_internet.Common.Result.{Result, ok, err}
use upi_w_o_internet.Model.Json.{Json, instruction_from_json}
use upi_w_o_internet.Service.Bridge.{CryptoService}
use upi_w_o_internet.Crypto.OpenSsl.{OpenSsl}
use upi_w_o_internet.Crypto.HybridCrypto.{JsonText, encrypt, decrypt, hash_ciphertext}

-- `dump` and `parse` of the JSON library.
pub record Serializer (json : Json) : Type 0 where
  pub dump : json.Value → Result Bytes
  pub parse : Bytes → Result json.Value

abbrev pub json_text : (json : Json) → Serializer json → JsonText
json_text json io = record { Json = json.Value; dump = io.dump; parse = io.parse }

abbrev pub text_result : Result Bytes → Result String
text_result (ok bs) = ok (text_of_bytes bs)
text_result (err e) = err e

module _ (ssl : OpenSsl) (json : Json) (io : Serializer json) (key : ssl.Key) where
  unfoldable pub encrypt_text : ℕ → json.Value → Result String
  encrypt_text drawn instruction =
      text_result (encrypt ssl (json_text json io) drawn instruction key 0).0

  unfoldable pub decrypt_text : String → Result json.Value
  decrypt_text ciphertext = (decrypt ssl (json_text json io) key (bytes_of_text ciphertext) 0).0

  unfoldable pub hash_text : String → Result String
  hash_text ciphertext = text_result (hash_ciphertext ssl (bytes_of_text ciphertext) 0).0

  abbrev pub hybrid_service : CryptoService
  hybrid_service = record {
    Json = json.Value;
    hash_ciphertext = hash_text;
    decrypt = decrypt_text;
    get_instruction = instruction_from_json json;
  }
