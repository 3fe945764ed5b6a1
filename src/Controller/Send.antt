-- ===== src/Controller/Send.antt =====
-- ApiController::demoSend and getServerKey, with the helper sha256Hex.
pub mod Hex
pub mod Outcome
use Prim.Native.String.{◌++◌ as ◌<>◌}
use upi_w_o_internet.Common.{
  false, true, ℕ, ◌+◌, ◌/◌, ◌-◌, ◌%◌, ◌≡◌, String, Bool, Option, none, some, List, [], ◌∷◌, ◌++◌,
  ltb, ◌&&◌, length, if◌then◌else◌,
}
use upi_w_o_internet.Common.Int.{ℤ, pos}
use upi_w_o_internet.Common.Bytes.{Bytes, bytes_of_text, text_of_bytes}
use upi_w_o_internet.Common.Result.{
  Exception, Action, Result, ok, err, lift, pure, what, ◌>>=◌, ◌>>◌,
}
use upi_w_o_internet.Model.Records.{MeshPacket, PaymentInstruction}
use upi_w_o_internet.Model.Json.{Json, instruction_to_json, to_paise}
use upi_w_o_internet.Crypto.OpenSsl.{OpenSsl}
use upi_w_o_internet.Crypto.ServerKey.{get_public_key_base64}
use upi_w_o_internet.Crypto.Service.{Serializer, encrypt_text}
use upi_w_o_internet.Service.Mesh.{Mesh, inject}
use upi_w_o_internet.Controller.Api.{has_all, Http, Request, prefix}

-- `ss << std::hex << std::setw(2) << std::setfill('0') << (int)b`: the digits that are needed, filled
-- to the width with zeros on the left.
base16_digit : ℕ → ℕ
base16_digit n = if ltb n 10 then b'0' + n else b'a' + n - 10

unfoldable pub put_hex : ℕ → Bytes
unfolding base16_digit
put_hex b =
    if ltb b 16
    then b'0' ∷ base16_digit b ∷ []
    else base16_digit (b / 16) ∷ base16_digit (b % 16) ∷ []

unfoldable pub stream_hex : Bytes → Bytes
unfolding put_hex
stream_hex [] = []
stream_hex (b ∷ bs) = put_hex b ++ stream_hex bs

-- What one call reads of the world: two draws of uuid_generate and the clock.
pub record World : Type 0 where
  pub nonce : String
  pub packet_id : String
  pub now : ℤ
  pub drawn : ℕ

pub record Sent : Type 0 where
  pub packet_id : String
  pub ciphertext_preview : String
  pub full_ciphertext : String
  pub ttl : ℤ
  pub injected_at : String

-- Status 400, status 500, 200, or an exception that leaves the handler.
pub data SendResponse : Type 0 where
  bad_request : String → SendResponse
  internal_error : String → SendResponse
  sent : Sent → SendResponse
  escaped : Exception → SendResponse

pub record ServerKeyInfo : Type 0 where
  pub public_key : String
  pub algorithm : String
  pub hybrid_scheme : String

-- The handler of the `try`.
abbrev pub answer : Result SendResponse × Mesh → SendResponse × Mesh
answer (ok r, m) = (r, m)
answer (err e, m) = (internal_error (what e), m)

-- `sha256` is the digest of the calls SHA256_Init, SHA256_Update and SHA256_Final.
module _ (sha256 : Bytes → Bytes) where
  unfoldable pub sha256_hex : String → String
  unfolding stream_hex
  sha256_hex input = text_of_bytes (stream_hex (sha256 (bytes_of_text input)))

module _ (ssl : OpenSsl) (key : ssl.Key) where
  unfoldable pub get_server_key : Result ServerKeyInfo
  get_server_key = elim (get_public_key_base64 ssl (some key) 0).0 [
    | err e ↦ err e
    | ok public_key ↦ ok (record {
      public_key = text_of_bytes public_key;
      algorithm = "RSA-2048 / OAEP-SHA256";
      hybrid_scheme = "RSA-OAEP encrypts an AES-256-GCM session key";
    })
  ]

-- The test before the `try`.
abbrev pub if_complete : Result Bool → SendResponse × Mesh → Mesh → SendResponse × Mesh
if_complete (err e) tried m = (escaped e, m)
if_complete (ok true) tried m = tried
if_complete (ok false) tried m = (bad_request "Missing required fields", m)

-- `as_double` converts a member of the body; `sha256` is as above.
module _ (ssl : OpenSsl) (json : Json) (io : Serializer json) (key : ssl.Key)
    (sha256 : Bytes → Bytes) (http : Http)
    (as_double : http.Body → String → Result json.Double) where
  open http use {Body, is_member, as_string, as_int}

  unfoldable pub has_payment_fields : Body → Result Bool
  has_payment_fields j = has_all http j ("senderVpa" ∷ "receiverVpa" ∷ "amount" ∷ "pin" ∷ [])

  -- A member, or what is taken if there is none.
  abbrev pub member_or : {A : Type 0} → Result Bool → Result A → A → Result A
  member_or (err e) read a = err e
  member_or (ok true) read a = read
  member_or (ok false) read a = ok a

  unfoldable pub read_payment : World → Body → Action Mesh PaymentInstruction
  unfolding sha256_hex
  read_payment w j = do
    sender_vpa ← lift (as_string j "senderVpa")
    receiver_vpa ← lift (as_string j "receiverVpa")
    amount ← lift (as_double j "amount")
    pin ← lift (as_string j "pin")
    pure (record {
      sender_vpa = sender_vpa;
      receiver_vpa = receiver_vpa;
      amount = to_paise json amount;
      pin_hash = sha256_hex sha256 pin;
      nonce = w.nonce;
      signed_at = w.now;
    })

  unfoldable pub packet_ttl : Body → Result ℤ
  packet_ttl j = member_or (is_member j "ttl") (as_int j "ttl") (pos 5)

  unfoldable pub start_device : Body → Result String
  start_device j = member_or (is_member j "startDevice") (as_string j "startDevice") "phone-alice"

  -- The `try` from the encryption on.
  unfoldable pub send_instruction : World → Body → PaymentInstruction → Action Mesh SendResponse
  send_instruction w j pi = do
    ciphertext ← lift (encrypt_text ssl json io key w.drawn (instruction_to_json json pi))
    ttl ← lift (packet_ttl j)
    device ← lift (start_device j)
    inject device (record {
      packet_id = w.packet_id;
      ttl = ttl;
      created_at = pi.signed_at;
      ciphertext = ciphertext;
    })
    pure (
        sent (record {
          packet_id = w.packet_id;
          ciphertext_preview = prefix 64 ciphertext <> "...";
          full_ciphertext = ciphertext;
          ttl = ttl;
          injected_at = device;
        }))

  -- The body of the `try`.
  unfoldable pub send_payment : World → Body → Action Mesh SendResponse
  send_payment w j = do pi ← read_payment w j; send_instruction w j pi

  unfoldable pub demo_send : World → Request http → Mesh → SendResponse × Mesh
  demo_send w req m = elim req.json [
    | none ↦ (bad_request "Invalid JSON", m)
    | some j ↦ if_complete (has_payment_fields j) (answer (send_payment w j m)) m
  ]
