-- ===== src/Crypto/Release.antt =====
-- crypto/: what happens to the OpenSSL contexts on each branch.
use upi_w_o_internet.Common.{ℕ, ◌≡◌, ap, ◌∙◌}
use upi_w_o_internet.Crypto.OpenSsl.{OpenSsl, Bytes}
use upi_w_o_internet.Crypto.Wire.{Parts}
use upi_w_o_internet.Common.Unchanged.{Unchanged, bind-Unchanged, pure-Unchanged, lift-Unchanged}
use upi_w_o_internet.Crypto.Balance.{
  new_context-Unchanged, or_free-Closes, free_after-Closes, free-Closes, require-Unchanged,
}
use upi_w_o_internet.Crypto.HybridCrypto.{
  JsonText, encrypt, decrypt, aes_encrypt, aes_decrypt, rsa_wrap, rsa_unwrap, hash_ciphertext,
}
use upi_w_o_internet.Crypto.Base64.{
  base64_encode, base64_decode, base64_encode_lem, base64_decode_lem, from_base64,
}

-- One rule for each way in which an action uses a context.
ruleset releases = (
  new_context-Unchanged, or_free-Closes, free_after-Closes, free-Closes, pure-Unchanged,
  require-Unchanged,
)

module _ (ssl : OpenSsl) where
  open ssl use {Key}

  aes_encrypt-Unchanged : (key iv plaintext : Bytes) → Unchanged (aes_encrypt ssl key iv plaintext)
  unfolding aes_encrypt
  aes_encrypt-Unchanged key iv plaintext = search (releases) depth 12

  rsa_wrap-Unchanged : (key : Key) (aes_key : Bytes) → Unchanged (rsa_wrap ssl key aes_key)
  unfolding rsa_wrap
  rsa_wrap-Unchanged key aes_key = search (releases) depth 12

  rsa_unwrap-Unchanged : (key : Key) (wrapped : Bytes) → Unchanged (rsa_unwrap ssl key wrapped)
  unfolding rsa_unwrap
  rsa_unwrap-Unchanged key wrapped = search (releases) depth 12

  aes_decrypt-Unchanged : (key : Bytes) (p : Parts) → Unchanged (aes_decrypt ssl key p)
  unfolding aes_decrypt
  aes_decrypt-Unchanged key p = search (releases, bind-Unchanged) depth 12

  hash_ciphertext-Unchanged : (b64 : Bytes) → Unchanged (hash_ciphertext ssl b64)
  unfolding hash_ciphertext
  hash_ciphertext-Unchanged b64 = search (releases) depth 12

  base64_encode-Unchanged : (bytes : Bytes) → Unchanged (base64_encode ssl bytes)
  unfolding Unchanged
  base64_encode-Unchanged bytes live = ap (λ end. end.1) (base64_encode_lem ssl bytes live)

  base64_decode-Unchanged : (b64 : Bytes) → Unchanged (base64_decode ssl b64)
  unfolding Unchanged
  base64_decode-Unchanged b64 live =
      ap (λ end. end.1) (base64_decode_lem ssl b64 live)
      ∙ require-Unchanged (from_base64 ssl b64) "Failed to decode base64" live

  module _ (json : JsonText) where
    open json use {Json, dump, parse}

    encrypt-Unchanged :
        (drawn : ℕ) (instruction : Json) (key : Key)
        → Unchanged (encrypt ssl json drawn instruction key)
    unfolding encrypt
    encrypt-Unchanged drawn instruction key =
        search
          (
            bind-Unchanged, lift-Unchanged, require-Unchanged, base64_encode-Unchanged,
            aes_encrypt-Unchanged, rsa_wrap-Unchanged,
          )
          depth 12

    decrypt-Unchanged : (key : Key) (b64 : Bytes) → Unchanged (decrypt ssl json key b64)
    unfolding decrypt
    decrypt-Unchanged key b64 =
        search
          (
            bind-Unchanged, lift-Unchanged, base64_decode-Unchanged, aes_decrypt-Unchanged,
            rsa_unwrap-Unchanged,
          )
          depth 12

    -- `encrypt` leaves as many OpenSSL contexts and BIOs allocated as it found, whichever call fails.
    encrypt_frees :
        (drawn : ℕ) (instruction : Json) (key : Key) (live : ℕ)
        → (encrypt ssl json drawn instruction key live).1 ≡ live
    unfolding Unchanged
    encrypt_frees drawn instruction key live = encrypt-Unchanged drawn instruction key live

    -- `decrypt` leaves as many OpenSSL contexts and BIOs allocated as it found, whichever call fails.
    decrypt_frees : (key : Key) (b64 : Bytes) (live : ℕ) → (decrypt ssl json key b64 live).1 ≡ live
    unfolding Unchanged
    decrypt_frees key b64 live = decrypt-Unchanged key b64 live

    -- Encrypt and decrypt leave as many OpenSSL contexts and BIOs allocated as they found, whichever
    -- call fails.
    pub encrypt_frees-decrypt_frees :
        (drawn : ℕ) (instruction : Json) (key : Key) (b64 : Bytes) (live : ℕ)
        → ((encrypt ssl json drawn instruction key live).1 ≡ live)
          × ((decrypt ssl json key b64 live).1 ≡ live)
    encrypt_frees-decrypt_frees drawn instruction key b64 live =
        (encrypt_frees drawn instruction key live, decrypt_frees key b64 live)
