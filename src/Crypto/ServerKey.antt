-- ===== src/Crypto/ServerKey.antt =====
-- crypto/ServerKeyHolder.cpp.
use upi_w_o_internet.Common.{ℕ, Option, none, some, []}
use upi_w_o_internet.Common.Result.{Action, pure, ◌>>=◌, ◌>>◌}
use upi_w_o_internet.Crypto.OpenSsl.{OpenSsl, Bytes, new_context, or_free, require, free}
use upi_w_o_internet.Crypto.Base64.{base64_encode}

module _ (ssl : OpenSsl) where
  open ssl use {Key, keygen_new, keygen_init, keygen_bits, keygen, public_der}

  unfoldable pub get_public_key_base64 : Option Key → Action ℕ Bytes
  get_public_key_base64 none = pure []
  get_public_key_base64 (some key) = do
    der ← require (public_der key) "Failed to encode public key to DER"
    base64_encode ssl der

  -- `ServerKeyHolder::ServerKeyHolder`, with the public key that it prints.
  unfoldable pub new_server_key : Action ℕ Key
  new_server_key = do
    ctx ← new_context keygen_new "Failed to create EVP_PKEY_CTX for RSA"
    ctx₁ ← or_free (keygen_init ctx) "Failed to initialize keygen"
    ctx₂ ← or_free (keygen_bits 2048 ctx₁) "Failed to set RSA keygen bits"
    key ← or_free (keygen ctx₂) "Failed to generate RSA keypair"
    free
    fingerprint ← get_public_key_base64 (some key)
    pure key
