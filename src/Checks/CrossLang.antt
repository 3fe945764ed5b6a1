-- ===== src/Checks/CrossLang.antt =====
-- crypto/cross_lang_test.cpp: a text that another program encrypted, and one that it is to decrypt.
-- The other program is reached by commands: `popen` gives what fgets leaves in the buffer in each
-- round for the n-th command, or nothing if there is no pipe. `subscript` is `[]` of the JSON library
-- and `dump_indented` its `dump(2)`. A `Key` is an EVP_PKEY, a pair or a public key only.
use upi_w_o_internet.Common.{ℕ, String, Option, none, some, List, [], ◌∷◌, ◌++◌, length}
use upi_w_o_internet.Common.Int.{pos}
use upi_w_o_internet.Common.Bytes.{Bytes, bytes_of_text}
use upi_w_o_internet.Common.Result.{
  Result, Action, ok, err, foreign, runtime_error, or_throw, lift, pure, ◌>>=◌, ◌>>◌,
}
use upi_w_o_internet.Model.Json.{Json}
use upi_w_o_internet.Crypto.OpenSsl.{OpenSsl, new_bio, free}
use upi_w_o_internet.Crypto.Base64.{decoded}
use upi_w_o_internet.Crypto.ServerKey.{new_server_key, get_public_key_base64}
use upi_w_o_internet.Crypto.HybridCrypto.{encrypt, decrypt}
use upi_w_o_internet.Crypto.Service.{Serializer, json_text}

-- `result += buffer.data()` in each round.
unfoldable pub append_all : List Bytes → Bytes
append_all [] = []
append_all (buffer ∷ rest) = buffer ++ append_all rest

abbrev pub post_text : String
post_text = "curl -s -X POST -H \"Content-Type: text/plain\" -d \""

-- The command that posts a text to a path of the other program.
abbrev pub post_command : Bytes → String → Bytes
post_command body url = bytes_of_text post_text ++ (body ++ bytes_of_text url)

module _ (popen : ℕ → Bytes → Option (List Bytes)) where
  abbrev pub exec_curl : ℕ → Bytes → Result Bytes
  exec_curl n cmd = elim (popen n cmd) [
    | none ↦ err (runtime_error "popen() failed!")
    | some buffers ↦ ok (append_all buffers)
  ]

-- What the program prints when it comes to its end, with the text that it sent.
pub record Interop : Type 0 where
  pub decrypted_from_java : Bytes
  pub cpp_ciphertext : Bytes
  pub decrypted_from_cpp : Bytes

module _ (json : Json) where
  open json use {Value, text, integer, object}

  unfoldable pub payload : Value
  payload = object (
      ("senderVpa", text "alice@upi")
      ∷ ("receiverVpa", text "bob@upi")
      ∷ ("amount", integer (pos 50000))
      ∷ ("pinHash", text "abcdef123456")
      ∷ ("nonce", text "unique-nonce-123")
      ∷ ("signedAt", integer (pos 1690000000))
      ∷ [])

module _ (ssl : OpenSsl) where
  open ssl use {bio_f_base64, bio_new_mem_buf}

  -- `base64DecodeLocal`: a negative length does not fit the vector.
  unfoldable pub base64_decode_local : Bytes → Action ℕ Bytes
  base64_decode_local b64 = do
    b64_bio ← new_bio bio_f_base64
    bmem ← new_bio (bio_new_mem_buf b64)
    out ← or_throw (decoded ssl b64_bio bmem (length b64)) (foreign "vector::resize")
    free
    free
    pure out

module _ (ssl : OpenSsl) (json : Json) (io : Serializer json)
    (popen : ℕ → Bytes → Option (List Bytes)) where
  open ssl use {Key}
  open json use {Value, get_text}

  -- The second direction: the text sent, and what the other program makes of it.
  unfoldable pub to_java : Key → Action ℕ (Bytes × Bytes)
  to_java key = do
    cpp_ciphertext ← encrypt ssl (json_text json io) 0 (payload json) key
    decrypted ← lift (
        exec_curl popen 2
          (post_command cpp_ciphertext "\" http://localhost:8080/api/demo/decrypt-test"))
    pure (cpp_ciphertext, decrypted)

  abbrev pub finish : Bytes → Option Key → Action ℕ (Option Interop)
  finish first none = pure none
  finish first (some key) = do
    (sent, answer) ← to_java key
    pure (
        some (record {
          decrypted_from_java = first;
          cpp_ciphertext = sent;
          decrypted_from_cpp = answer;
        }))

  module _ (dump_indented : Value → Result Bytes) where
    -- The first direction: what the other program encrypted for the new key, decrypted and dumped.
    unfoldable pub from_java : Action ℕ Bytes
    from_java = do
      key ← new_server_key ssl
      cpp_pub ← get_public_key_base64 ssl (some key)
      java_ciphertext ← lift (
          exec_curl popen 0 (post_command cpp_pub "\" http://localhost:8080/api/demo/encrypt-test"))
      decrypted ← decrypt ssl (json_text json io) key java_ciphertext
      lift (dump_indented decrypted)

  module _ (subscript : String → Value → Result Value) (read_public_key : Bytes → Option Key) where
    -- The key of the other program, if it reads as one.
    unfoldable pub java_key : Action ℕ (Option Key)
    java_key = do
      java_pub_str ←
          lift (exec_curl popen 1 (bytes_of_text "curl -s http://localhost:8080/api/server-key"))
      java_pub_json ← lift (io.parse java_pub_str)
      public_key ← lift (subscript "publicKey" java_pub_json)
      java_pub ← lift (get_text public_key)
      der ← base64_decode_local ssl (bytes_of_text java_pub)
      pure (read_public_key der)

  module _ (dump_indented : Value → Result Bytes) (subscript : String → Value → Result Value)
      (read_public_key : Bytes → Option Key) where
    -- `main`; `none` is the exit code 1.
    unfoldable pub cross_lang_test : Action ℕ (Option Interop)
    cross_lang_test = do
      first ← from_java dump_indented
      found ← java_key subscript read_public_key
      finish first found
