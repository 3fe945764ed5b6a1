-- ===== src/Tests/Interop.antt =====
-- cross_lang_test.cpp and test_amounts.cpp, on ToySsl and ToyJson.
use upi_w_o_internet.Common.{ℕ, zero, suc, ◌≡◌, refl, String, Option, some, List, [], ◌∷◌, ◌++◌}
use upi_w_o_internet.Common.Int.{pos, negsuc}
use upi_w_o_internet.Common.Bytes.{Bytes, bytes_of_text}
use upi_w_o_internet.Common.Map.{lookup}
use upi_w_o_internet.Common.Result.{Result, ok, err}
use upi_w_o_internet.Model.Records.{PaymentInstruction, same_instruction}
use upi_w_o_internet.Model.Json.{instruction_to_json, instruction_from_json, to_paise, to_rupees}
use upi_w_o_internet.Crypto.Wire.{pack, unpack}
use upi_w_o_internet.Crypto.Base64.{base64_encode, base64_decode}
use upi_w_o_internet.Crypto.ServerKey.{new_server_key, get_public_key_base64}
use upi_w_o_internet.Crypto.HybridCrypto.{
  encrypt, decrypt, aes_encrypt, aes_decrypt, rsa_wrap, rsa_unwrap,
}
use upi_w_o_internet.Crypto.Service.{Serializer}
use upi_w_o_internet.Checks.Amounts.{test_amount, test_all, test_amounts}
use upi_w_o_internet.Checks.CrossLang.{
  Interop, append_all, payload, base64_decode_local, from_java, java_key, to_java, cross_lang_test,
}
use upi_w_o_internet.Tests.ToySsl.{zeros, spell, unary, count, toy_ssl}
use upi_w_o_internet.Tests.ToyJson.{Node, toy_values, toy_io, text}

abbrev sealed_payload : Bytes
sealed_payload = unary (zeros 256 ++ (zeros 12 ++ (123 ∷ zeros 16)))

-- The answers to the three commands.
abbrev answers : ℕ → Bytes → Option (List Bytes)
answers zero cmd = some (sealed_payload ∷ [])
answers (suc zero) cmd = some ((123 ∷ []) ∷ [])
answers (suc (suc n)) cmd = some ((123 ∷ []) ∷ (10 ∷ []) ∷ [])

abbrev public_key : String → Node → Result Node
public_key key v = ok (text "k")

abbrev toy_key : Bytes → Option (Unit {0})
toy_key der = some tt

abbrev run : ℕ → Result (Option Interop)
run live = (cross_lang_test toy_ssl toy_values toy_io answers toy_io.dump public_key toy_key live).0

abbrev toy_interop : Interop
toy_interop = record {
  decrypted_from_java = 123 ∷ [];
  cpp_ciphertext = sealed_payload;
  decrypted_from_cpp = 123 ∷ 10 ∷ [];
}

cross_lang_test_run : run 0 ≡ ok (some toy_interop)
unfolding cross_lang_test from_java java_key to_java payload base64_decode_local append_all
    new_server_key get_public_key_base64 encrypt decrypt aes_encrypt rsa_wrap base64_encode
    base64_decode rsa_unwrap aes_decrypt zeros pack unpack unary spell count instruction_to_json
    instruction_from_json to_rupees to_paise lookup same_instruction bytes_of_text
cross_lang_test_run = refl

abbrev paise : Result PaymentInstruction → Result Bytes
paise (ok p) = elim p.amount [ pos n ↦ ok (n ∷ []) | negsuc n ↦ ok [] ]
paise (err e) = err e

-- A dump that shows the amount only.
abbrev amount_io : Serializer toy_values
amount_io = record { dump = λ v. paise (instruction_from_json toy_values v); parse = toy_io.parse }

test_amounts_run :
    test_amounts toy_values amount_io
    ≡ ok ((500000 ∷ []) ∷ (123456 ∷ []) ∷ (50 ∷ []) ∷ (999999999 ∷ []) ∷ [])
unfolding test_amounts test_all test_amount instruction_to_json instruction_from_json to_rupees
    to_paise lookup
test_amounts_run = refl
