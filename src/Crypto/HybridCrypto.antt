-- ===== src/Crypto/HybridCrypto.antt =====
-- crypto/HybridCryptoService.cpp.
use upi_w_o_internet.Common.{ℕ, suc, ◌++◌}
use upi_w_o_internet.Common.Result.{Action, Result, lift, pure, ◌>>=◌, ◌>>◌}
use upi_w_o_internet.Crypto.OpenSsl.{
  OpenSsl, Bytes, new_context, or_free, require, free, free_after,
}
use upi_w_o_internet.Crypto.Base64.{base64_encode, base64_decode}
use upi_w_o_internet.Crypto.Wire.{Parts, pack, unpack, aes_key_bytes, gcm_iv_bytes, gcm_tag_bytes}
use upi_w_o_internet.Crypto.Hex.{to_hex}

-- The JSON library: `dump` may throw on a text that is not UTF-8, `parse` on one that is not JSON.
pub record JsonText : Type 1 where
  pub Json : Type 0
  pub dump : Json → Result Bytes
  pub parse : Bytes → Result Json

module _ (ssl : OpenSsl) where
  open ssl use {
    Key, rand_bytes, cipher_new, encrypt_init, encrypt_set_key, encrypt_update, encrypt_final,
    get_tag, decrypt_init, decrypt_set_key, decrypt_update, set_tag, decrypt_final, rsa_new,
    rsa_encrypt_init, rsa_decrypt_init, set_padding, set_oaep_md, set_mgf1_md, rsa_encrypt_size,
    rsa_encrypt, rsa_decrypt_size, rsa_decrypt, digest_new, digest_init, digest_update,
    digest_final,
  }

  -- Step 3 of `encrypt`: the ciphertext and the tag.
  unfoldable pub aes_encrypt : Bytes → Bytes → Bytes → Action ℕ (Bytes × Bytes)
  aes_encrypt aes_key iv plaintext = do
    ctx ← new_context cipher_new "Failed to create AES context"
    ctx₁ ← or_free (encrypt_init ctx) "Failed to init AES-GCM"
    ctx₂ ← or_free (encrypt_set_key aes_key iv ctx₁) "Failed to set AES key and IV"
    (body, ctx₃) ← or_free (encrypt_update plaintext ctx₂) "Failed during AES-GCM encrypt update"
    (rest, ctx₄) ← or_free (encrypt_final ctx₃) "Failed during AES-GCM encrypt final"
    tag ← or_free (get_tag gcm_tag_bytes ctx₄) "Failed to get AES-GCM tag"
    free
    pure (body ++ rest, tag)

  -- Step 4 of `encrypt`.
  unfoldable pub rsa_wrap : Key → Bytes → Action ℕ Bytes
  rsa_wrap key aes_key = do
    ctx ← new_context (rsa_new key) "Failed to create RSA context"
    ctx₁ ← or_free (rsa_encrypt_init ctx) "Failed to init RSA encrypt"
    ctx₂ ← or_free (set_padding ctx₁) "Failed to set RSA-OAEP parameters"
    ctx₃ ← or_free (set_oaep_md ctx₂) "Failed to set RSA-OAEP parameters"
    ctx₄ ← or_free (set_mgf1_md ctx₃) "Failed to set RSA-OAEP parameters"
    outlen ← or_free (rsa_encrypt_size aes_key ctx₄) "Failed to determine RSA buffer size"
    wrapped ← or_free (rsa_encrypt aes_key ctx₄) "Failed to encrypt with RSA-OAEP"
    free
    pure wrapped

  -- Step 1 of `decrypt`.
  unfoldable pub rsa_unwrap : Key → Bytes → Action ℕ Bytes
  rsa_unwrap key wrapped = do
    ctx ← new_context (rsa_new key) "Failed to create RSA context"
    ctx₁ ← or_free (rsa_decrypt_init ctx) "Failed to init RSA decrypt"
    ctx₂ ← or_free (set_padding ctx₁) "Failed to set RSA-OAEP parameters"
    ctx₃ ← or_free (set_oaep_md ctx₂) "Failed to set RSA-OAEP parameters"
    ctx₄ ← or_free (set_mgf1_md ctx₃) "Failed to set RSA-OAEP parameters"
    len ←
        or_free (rsa_decrypt_size wrapped ctx₄)
          "Failed to determine AES key buffer size (decryption failure)"
    aes_key ← or_free (rsa_decrypt wrapped ctx₄) "RSA decryption failed (tampered key?)"
    free
    pure aes_key

  -- Step 2 of `decrypt`: the context is freed before the verdict on the tag is looked at.
  unfoldable pub aes_decrypt : Bytes → Parts → Action ℕ Bytes
  aes_decrypt aes_key p = do
    ctx ← new_context cipher_new "Failed to create AES context"
    ctx₁ ← or_free (decrypt_init ctx) "Failed to init AES-GCM decrypt"
    ctx₂ ← or_free (decrypt_set_key aes_key p.iv ctx₁) "Failed to set AES key and IV"
    (body, ctx₃) ← or_free (decrypt_update p.ciphertext ctx₂) "Failed during AES-GCM decrypt update"
    ctx₄ ← or_free (set_tag p.tag ctx₃) "Failed to set expected AES-GCM tag"
    verdict ← free_after (decrypt_final ctx₄)
    rest ← require verdict "AES-GCM Authentication failed (tampered ciphertext or tag)"
    pure (body ++ rest)

  unfoldable pub hash_ciphertext : Bytes → Action ℕ Bytes
  hash_ciphertext b64 = do
    ctx ← new_context digest_new "Failed to create MD ctx"
    ctx₁ ← or_free (digest_init ctx) "Failed to hash ciphertext"
    ctx₂ ← or_free (digest_update b64 ctx₁) "Failed to hash ciphertext"
    hash ← or_free (digest_final ctx₂) "Failed to finalize hash"
    free
    pure (to_hex hash)

  module _ (json : JsonText) where
    open json use {Json, dump, parse}

    -- `drawn` counts the calls of RAND_bytes that were made before.
    unfoldable pub encrypt : ℕ → Json → Key → Action ℕ Bytes
    encrypt drawn instruction server_public_key = do
      plaintext ← lift (dump instruction)
      aes_key ← require (rand_bytes drawn aes_key_bytes) "Failed to generate random AES key"
      iv ← require (rand_bytes (suc drawn) gcm_iv_bytes) "Failed to generate random IV"
      (ciphertext, tag) ← aes_encrypt aes_key iv plaintext
      wrapped_key ← rsa_wrap server_public_key aes_key
      base64_encode ssl
          (pack (record { wrapped_key = wrapped_key; iv = iv; ciphertext = ciphertext; tag = tag }))

    unfoldable pub decrypt : Key → Bytes → Action ℕ Json
    decrypt private_key b64 = do
      all ← base64_decode ssl b64
      p ← lift (unpack all)
      aes_key ← rsa_unwrap private_key p.wrapped_key
      plaintext ← aes_decrypt aes_key p
      lift (parse plaintext)
