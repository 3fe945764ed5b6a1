-- ===== src/Crypto/OpenSsl.antt =====
-- The calls of OpenSSL that crypto/ makes: an interface, since its code is not in the repository.
-- `none` is the error return of a call. Bytes are numbers. The state of an action is the number of
-- contexts and BIOs that are allocated and not yet freed.
use upi_w_o_internet.Common.{ℕ, suc, ◌-◌, String, Option, none, some}
use upi_w_o_internet.Common.Result.{Action, ok, err, runtime_error}
pub use upi_w_o_internet.Common.Bytes.{Bytes}

pub record OpenSsl : Type 1 where
  pub Key : Type 0
  -- EVP_CIPHER_CTX, EVP_PKEY_CTX, EVP_MD_CTX
  pub Cipher : Type 0
  pub Rsa : Type 0
  pub Digest : Type 0
  -- RAND_bytes: the bytes of the n-th draw, of a length
  pub rand_bytes : ℕ → ℕ → Option Bytes
  pub cipher_new : Option Cipher
  -- EVP_EncryptInit_ex with EVP_aes_256_gcm, and with the key and the IV
  pub encrypt_init : Cipher → Option Cipher
  pub encrypt_set_key : Bytes → Bytes → Cipher → Option Cipher
  pub encrypt_update : Bytes → Cipher → Option (Bytes × Cipher)
  pub encrypt_final : Cipher → Option (Bytes × Cipher)
  pub get_tag : ℕ → Cipher → Option Bytes
  pub decrypt_init : Cipher → Option Cipher
  pub decrypt_set_key : Bytes → Bytes → Cipher → Option Cipher
  pub decrypt_update : Bytes → Cipher → Option (Bytes × Cipher)
  pub set_tag : Bytes → Cipher → Option Cipher
  pub decrypt_final : Cipher → Option Bytes
  pub rsa_new : Key → Option Rsa
  pub rsa_encrypt_init : Rsa → Option Rsa
  pub rsa_decrypt_init : Rsa → Option Rsa
  -- RSA_PKCS1_OAEP_PADDING, then EVP_sha256 for OAEP and for MGF1
  pub set_padding : Rsa → Option Rsa
  pub set_oaep_md : Rsa → Option Rsa
  pub set_mgf1_md : Rsa → Option Rsa
  -- EVP_PKEY_encrypt and EVP_PKEY_decrypt, first for the size
  pub rsa_encrypt_size : Bytes → Rsa → Option ℕ
  pub rsa_encrypt : Bytes → Rsa → Option Bytes
  pub rsa_decrypt_size : Bytes → Rsa → Option ℕ
  pub rsa_decrypt : Bytes → Rsa → Option Bytes
  -- BIO_new with BIO_f_base64 and with BIO_s_mem, BIO_new_mem_buf
  pub Bio : Type 0
  pub bio_f_base64 : Bio
  pub bio_s_mem : Bio
  pub bio_new_mem_buf : Bytes → Bio
  pub bio_push : Bio → Bio → Bio
  -- BIO_set_flags with BIO_FLAGS_BASE64_NO_NL
  pub bio_no_nl : Bio → Bio
  pub bio_write : Bytes → Bio → Bio
  pub bio_flush : Bio → Bio
  -- BIO_get_mem_ptr: the bytes in the memory at the end of the chain
  pub bio_get_mem : Bio → Bytes
  -- BIO_read of at most so many bytes; `none` for a negative length
  pub bio_read : ℕ → Bio → Option Bytes
  pub digest_new : Option Digest
  -- EVP_DigestInit_ex with EVP_sha256, EVP_DigestUpdate, EVP_DigestFinal_ex
  pub digest_init : Digest → Option Digest
  pub digest_update : Bytes → Digest → Option Digest
  pub digest_final : Digest → Option Bytes
  -- EVP_PKEY_CTX_new_id(EVP_PKEY_RSA), keygen_init, set_rsa_keygen_bits, keygen
  pub keygen_new : Option Rsa
  pub keygen_init : Rsa → Option Rsa
  pub keygen_bits : ℕ → Rsa → Option Rsa
  pub keygen : Rsa → Option Key
  -- i2d_PUBKEY
  pub public_der : Key → Option Bytes

-- A new context, or an exception if there is none.
abbrev pub new_context : {C : Type 0} → Option C → String → Action ℕ C
new_context none msg live = (err (runtime_error msg), live)
new_context (some c) msg live = (ok c, suc live)

-- A call on a context: on failure the context is freed before the exception.
abbrev pub or_free : {A : Type 0} → Option A → String → Action ℕ A
or_free none msg live = (err (runtime_error msg), live - 1)
or_free (some a) msg live = (ok a, live)

-- A BIO; the source takes it that there is memory for one.
abbrev pub new_bio : {B : Type 0} → B → Action ℕ B
new_bio b live = (ok b, suc live)

-- A call that holds no context.
abbrev pub require : {A : Type 0} → Option A → String → Action ℕ A
require none msg live = (err (runtime_error msg), live)
require (some a) msg live = (ok a, live)

abbrev pub free : Action ℕ (Unit {0})
free live = (ok tt, live - 1)

-- The outcome of a last call, looked at after the context is freed.
abbrev pub free_after : {A : Type 0} → A → Action ℕ A
free_after a live = (ok a, live - 1)
