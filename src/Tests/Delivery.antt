-- ===== src/Tests/Delivery.antt =====
-- A payment on its way from the phone to the bridge, and verify_phase1.cpp, on ToySsl and ToyJson.
use Prim.Native.String.{◌++◌ as ◌<>◌}
use upi_w_o_internet.Common.{◌≡◌, refl, String, some, true, [], ◌∷◌, ◌++◌, take, arith}
use upi_w_o_internet.Common.Int.{pos}
use upi_w_o_internet.Common.Map.{lookup}
use upi_w_o_internet.Common.Bytes.{Bytes, text_of_bytes}
use upi_w_o_internet.Common.Result.{ok}
use upi_w_o_internet.Model.Records.{same_instruction}
use upi_w_o_internet.Model.Json.{instruction_to_json, instruction_from_json, to_paise, to_rupees}
use upi_w_o_internet.Service.Bridge.{read_instruction}
use upi_w_o_internet.Service.Mesh.{Mesh, inject, get_device, seed_default_devices}
use upi_w_o_internet.Controller.Api.{has_all, Http, Request, prefix}
use upi_w_o_internet.Controller.Send.{
  has_payment_fields, World, SendResponse, sent, demo_send, send_payment, send_instruction,
  read_payment, packet_ttl, start_device,
}
use upi_w_o_internet.Controller.Send.Outcome.{Told, demo_send-Told}
use upi_w_o_internet.Crypto.Base64.{base64_encode, base64_decode}
use upi_w_o_internet.Crypto.Wire.{pack, unpack}
use upi_w_o_internet.Crypto.HybridCrypto.{
  encrypt, decrypt, aes_encrypt, rsa_wrap, rsa_unwrap, aes_decrypt,
}
use upi_w_o_internet.Crypto.ServerKey.{new_server_key, get_public_key_base64}
use upi_w_o_internet.Crypto.Service.{Serializer, encrypt_text, hybrid_service}
use upi_w_o_internet.Crypto.Service.Delivery.{read_instruction-encrypt_text}
use upi_w_o_internet.Checks.Verdict.{pass, fail, verdict}
use upi_w_o_internet.Checks.Phase1.{
  base64_decode_test, reencode, Findings, sample, flip_at, check_tampering, verify_phase1,
}
use upi_w_o_internet.Checks.Phase1.Outcome.{verify_phase1-Sound}
use upi_w_o_internet.Tests.MemoryDb.{memory_db}
use upi_w_o_internet.Tests.ToySsl.{zeros, spell, unary, count, toy_ssl}
use upi_w_o_internet.Tests.LawfulSsl.{toy_ssl-IsOpenSsl}
use upi_w_o_internet.Tests.ToyJson.{
  Node, toy_values, toy_values-IsJson, toy_io, toy_io-IsSerializer, rupees_500, same, exact, text,
}

abbrev pub sealed_payment : String
sealed_payment = text_of_bytes (unary (zeros 256 ++ (zeros 12 ++ (123 ∷ zeros 16))))

pub encrypt_text_test :
    encrypt_text toy_ssl toy_values toy_io tt 0 (instruction_to_json toy_values rupees_500)
    ≡ ok sealed_payment
unfolding base64_encode encrypt_text encrypt aes_encrypt rsa_wrap zeros pack unary
    instruction_to_json instruction_from_json to_rupees to_paise lookup same_instruction
encrypt_text_test = refl

read_instruction-encrypt_text_example :
    read_instruction (hybrid_service toy_ssl toy_values toy_io tt) memory_db sealed_payment
    ≡ ok rupees_500
read_instruction-encrypt_text_example =
    read_instruction-encrypt_text toy_ssl toy_values toy_io tt memory_db toy_ssl-IsOpenSsl
      toy_values-IsJson toy_io-IsSerializer 0 rupees_500 sealed_payment (omega arith)
      (omega arith, omega arith) encrypt_text_test

abbrev toy_findings : Findings
toy_findings = record { key_header = fail; wire_length = pass; round_trip = pass; tampering = fail }

verify_phase1_test : (verify_phase1 toy_ssl toy_values toy_io same 0).0 ≡ ok toy_findings
unfolding verify_phase1 check_tampering flip_at sample new_server_key get_public_key_base64 encrypt
    decrypt aes_encrypt rsa_wrap base64_encode base64_decode base64_decode_test reencode rsa_unwrap
    aes_decrypt zeros pack unpack unary spell count instruction_to_json instruction_from_json
    to_rupees to_paise lookup same_instruction
verify_phase1_test = refl

verify_phase1-Sound_example :
    let s = sample toy_ssl toy_values toy_io same in
    (toy_findings.wire_length ≡ pass)
    × (plaintext : Bytes) × (v : Node) × (toy_io.dump s ≡ ok plaintext)
    × (toy_io.parse plaintext ≡ ok v)
    × (toy_findings.round_trip ≡ verdict (same v s))
verify_phase1-Sound_example =
    verify_phase1-Sound toy_ssl toy_values toy_io same (λ key made. toy_ssl-IsOpenSsl) 0
      toy_findings verify_phase1_test

-- A body that has every field, with a text, a number and a start device that is there.
abbrev pub toy_http : Http
toy_http = record {
  Body = Unit;
  is_member = λ body key. ok true;
  as_string = λ body key. ok "phone-alice";
  as_int = λ body key. ok (pos 3);
  as_int64 = λ body key. ok (pos 3);
  stoi = λ s. ok (pos 0);
}

abbrev pub toy_world : World
toy_world = record { nonce = "n-1"; packet_id = "p-1"; now = pos 1700000000000; drawn = 0 }

abbrev pub toy_request : Request toy_http
toy_request = record { json = some tt; header = λ name. "" }

-- Every value has the same text.
abbrev any_io : Serializer toy_values
any_io = record { dump = λ v. ok (123 ∷ []); parse = λ bs. ok (text "") }

abbrev send : SendResponse × Mesh
send =
    demo_send toy_ssl toy_values any_io tt (λ bs. take 32 bs) toy_http
      (λ body key. ok (exact (pos 50))) toy_world toy_request seed_default_devices

abbrev sent_payment : SendResponse
sent_payment = sent (record {
  packet_id = "p-1";
  ciphertext_preview = prefix 64 sealed_payment <> "...";
  full_ciphertext = sealed_payment;
  ttl = pos 3;
  injected_at = "phone-alice";
})

demo_send_run : send.0 ≡ sent_payment
unfolding has_payment_fields has_all base64_encode demo_send send_payment send_instruction
    read_payment packet_ttl start_device encrypt_text encrypt aes_encrypt rsa_wrap zeros pack unary
    inject get_device seed_default_devices lookup
demo_send_run = refl

demo_send-Told_example : Told toy_world seed_default_devices send
demo_send-Told_example =
    demo_send-Told toy_ssl toy_values any_io tt (λ bs. take 32 bs) toy_http
      (λ body key. ok (exact (pos 50))) toy_world toy_request seed_default_devices
