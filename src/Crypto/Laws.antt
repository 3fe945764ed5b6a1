-- ===== src/Crypto/Laws.antt =====
-- What OpenSSL's documentation says of the calls of crypto/: hypotheses about the interface. Memory
-- is taken to suffice for the calls that undo what succeeded.
use upi_w_o_internet.Common.{ℕ, ◌≡◌, some, ◌++◌, length, All}
use upi_w_o_internet.Common.Bytes.{IsByte}
use upi_w_o_internet.Crypto.OpenSsl.{OpenSsl, Bytes}
use upi_w_o_internet.Crypto.Base64.{to_base64, from_base64}

module _ (ssl : OpenSsl) where
  open ssl use {
    Key, Cipher, Rsa, rand_bytes, cipher_new, encrypt_init, encrypt_set_key, encrypt_update,
    encrypt_final, get_tag, decrypt_init, decrypt_set_key, decrypt_update, set_tag, decrypt_final,
    rsa_new, rsa_encrypt_init, rsa_decrypt_init, set_padding, set_oaep_md, set_mgf1_md,
    rsa_encrypt_size, rsa_encrypt, rsa_decrypt_size, rsa_decrypt,
  }

  -- The calls that open a sealed text, and what they give.
  pub record GcmOpens (c : Cipher) (key iv sealed tag plaintext : Bytes) : Type 0 where
    pub init : Cipher
    pub keyed : Cipher
    pub updated : Cipher
    pub tagged : Cipher
    pub body : Bytes
    pub rest : Bytes
    pub inits : decrypt_init c ≡ some init
    pub keys : decrypt_set_key key iv init ≡ some keyed
    pub updates : decrypt_update sealed keyed ≡ some (body, updated)
    pub tags : set_tag tag updated ≡ some tagged
    pub verifies : decrypt_final tagged ≡ some rest
    pub opened : body ++ rest ≡ plaintext

  -- The calls that unwrap a wrapped key.
  pub record OaepOpens (c : Rsa) (wrapped message : Bytes) : Type 0 where
    pub init : Rsa
    pub padded : Rsa
    pub digested : Rsa
    pub masked : Rsa
    pub size : ℕ
    pub inits : rsa_decrypt_init c ≡ some init
    pub pads : set_padding init ≡ some padded
    pub digests : set_oaep_md padded ≡ some digested
    pub masks : set_mgf1_md digested ≡ some masked
    pub sizes : rsa_decrypt_size wrapped masked ≡ some size
    pub unwraps : rsa_decrypt wrapped masked ≡ some message

  -- A context of AES-256-GCM that has sealed a text.
  pub record GcmSeals (c : Cipher) (key iv plaintext body rest tag : Bytes) : Type 0 where
    pub init : Cipher
    pub keyed : Cipher
    pub updated : Cipher
    pub finished : Cipher
    pub inits : encrypt_init c ≡ some init
    pub keys : encrypt_set_key key iv init ≡ some keyed
    pub updates : encrypt_update plaintext keyed ≡ some (body, updated)
    pub finishes : encrypt_final updated ≡ some (rest, finished)
    pub tags : get_tag 16 finished ≡ some tag

  -- A context of RSA-OAEP that has wrapped a message.
  pub record OaepSeals (c : Rsa) (message wrapped : Bytes) : Type 0 where
    pub init : Rsa
    pub padded : Rsa
    pub digested : Rsa
    pub masked : Rsa
    pub inits : rsa_encrypt_init c ≡ some init
    pub pads : set_padding init ≡ some padded
    pub digests : set_oaep_md padded ≡ some digested
    pub masks : set_mgf1_md digested ≡ some masked
    pub wraps : rsa_encrypt message masked ≡ some wrapped

  -- For a key pair of 2048 bits.
  pub record IsOpenSsl (pair : Key) : Type 0 where
    pub random_length : (i n : ℕ) (bs : Bytes) → rand_bytes i n ≡ some bs → length bs ≡ n
    pub base64 : (bs : Bytes) → from_base64 ssl (to_base64 ssl bs) ≡ some bs
    pub base64_bytes : (bs : Bytes) → All IsByte (to_base64 ssl bs)
    pub tag_length : (n : ℕ) (c : Cipher) (tag : Bytes) → get_tag n c ≡ some tag → length tag ≡ n
    -- GCM is a stream mode: the sealed text is as long as the text.
    pub gcm_length :
        (c : Cipher) (key iv plaintext body rest tag : Bytes)
        → GcmSeals c key iv plaintext body rest tag
        → length (body ++ rest) ≡ length plaintext
    pub gcm :
        (c : Cipher) (key iv plaintext body rest tag : Bytes)
        → cipher_new ≡ some c
        → GcmSeals c key iv plaintext body rest tag
        → GcmOpens c key iv (body ++ rest) tag plaintext
    pub wrapped_length :
        (c : Rsa) (message wrapped : Bytes)
        → rsa_new pair ≡ some c
        → OaepSeals c message wrapped
        → length wrapped ≡ 256
    pub oaep :
        (c : Rsa) (message wrapped : Bytes)
        → rsa_new pair ≡ some c
        → OaepSeals c message wrapped
        → OaepOpens c wrapped message
