-- ===== src/Crypto/Service/Delivery.antt =====
-- An instruction on its way from the sender's phone to the bridge.
use upi_w_o_internet.Common.{ℕ, ◌≡◌, refl, String, ap, ◌∙◌}
use upi_w_o_internet.Common.Int.{IsInt64}
use upi_w_o_internet.Common.Bytes.{Bytes, text_of_bytes, bytes_of_text-text_of_bytes}
use upi_w_o_internet.Common.Result.{Result, ok, err}
use upi_w_o_internet.Model.Records.{PaymentInstruction}
use upi_w_o_internet.Model.Sqlite.{Sqlite}
use upi_w_o_internet.Model.Json.{Json, instruction_to_json}
use upi_w_o_internet.Model.Json.Roundtrip.{
  IsJson, Carries, instruction_from_json-Carries, instruction_to_json-Carries,
}
use upi_w_o_internet.Model.Json.Rounding.{IsExact}
use upi_w_o_internet.Service.Bridge.{read_instruction}
use upi_w_o_internet.Crypto.OpenSsl.{OpenSsl}
use upi_w_o_internet.Crypto.Laws.{IsOpenSsl}
use upi_w_o_internet.Crypto.HybridCrypto.{decrypt}
use upi_w_o_internet.Crypto.Roundtrip.{decrypt-encrypt, encrypt_bytes}
use upi_w_o_internet.Crypto.Service.{
  Serializer, json_text, text_result, encrypt_text, decrypt_text, hybrid_service,
}

-- What is parsed from the text of a value reads as the value does.
pub record IsSerializer (json : Json) (io : Serializer json) : Type 0 where
  pub parses :
      (v : json.Value) (bs : Bytes) (p : PaymentInstruction)
      → Carries json v p
      → io.dump v ≡ ok bs
      → (v' : json.Value) × (io.parse bs ≡ ok v') × Carries json v' p

text_result-eq-ok :
    (r : Result Bytes) (text : String)
    → text_result r ≡ ok text
    → (bs : Bytes) × (r ≡ ok bs) × (text ≡ text_of_bytes bs)
text_result-eq-ok (ok bs) text h = (bs, refl, cc)
text_result-eq-ok (err e) text h = cc

-- An instruction that the sender turned into JSON and encrypted for the server's key is read by the
-- bridge as it was, the amount included; for an amount of at most 2^51 paise and a 64-bit time of
-- signing, if OpenSSL and the JSON library do what their laws say.
pub read_instruction-encrypt_text :
    (ssl : OpenSsl) (json : Json) (io : Serializer json) (pair : ssl.Key) (q : Sqlite)
    → IsOpenSsl ssl pair
    → IsJson json
    → IsSerializer json io
    → (drawn : ℕ) (p : PaymentInstruction) (text : String) → IsExact p.amount
    → IsInt64 p.signed_at
    → encrypt_text ssl json io pair drawn (instruction_to_json json p) ≡ ok text
    → read_instruction (hybrid_service ssl json io pair) q text ≡ ok p
unfolding read_instruction encrypt_text decrypt_text
read_instruction-encrypt_text ssl json io pair q laws jlaws slaws drawn p text exact time done =
    let (bs, made, e) = text_result-eq-ok _ text done in
    let jt = json_text json io in
    let v = instruction_to_json json p in
    let (plaintext, dumps, opens) = decrypt-encrypt ssl jt pair laws drawn v bs 0 0 made in
    let bytes = bytes_of_text-text_of_bytes bs (encrypt_bytes ssl jt pair laws drawn v bs 0 made) in
    let (v', parsed, carried) =
      slaws.parses v plaintext p (instruction_to_json-Carries json jlaws p time) dumps in
    let reads : decrypt_text ssl json io pair text ≡ ok v' =
      ap (decrypt_text ssl json io pair) e
      ∙ ap (λ b. (decrypt ssl jt pair b 0).0) bytes
      ∙ opens
      ∙ parsed in
    rw (reads, read_instruction) (instruction_from_json-Carries json jlaws v' p carried exact)
