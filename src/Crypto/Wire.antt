-- ===== src/Crypto/Wire.antt =====
-- The wire format of crypto/HybridCryptoService: the wrapped key, the IV, the ciphertext, the tag.
use upi_w_o_internet.Common.{
  ℕ, ◌+◌, ◌-◌, ◌≡◌, refl, ◌++◌, arith, false, ltb, length, take, drop, length-append, take-append,
  drop-append, if◌then◌else◌,
}
use upi_w_o_internet.Common.Result.{Result, ok, err, invalid_argument}
use upi_w_o_internet.Crypto.OpenSsl.{Bytes}

abbrev pub aes_key_bytes : ℕ
aes_key_bytes = 32

abbrev pub gcm_iv_bytes : ℕ
gcm_iv_bytes = 12

abbrev pub gcm_tag_bytes : ℕ
gcm_tag_bytes = 16

abbrev pub rsa_encrypted_key_bytes : ℕ
rsa_encrypted_key_bytes = 256

pub record Parts : Type 0 where
  pub wrapped_key : Bytes
  pub iv : Bytes
  pub ciphertext : Bytes
  pub tag : Bytes

unfoldable pub pack : Parts → Bytes
pack p = p.wrapped_key ++ (p.iv ++ (p.ciphertext ++ p.tag))

-- The cuts that the iterators make.
abbrev cut : Bytes → ℕ → Parts
cut all aes_cipher_len =
    let after_key = drop rsa_encrypted_key_bytes all in
    let after_iv = drop gcm_iv_bytes after_key in
    record {
      wrapped_key = take rsa_encrypted_key_bytes all;
      iv = take gcm_iv_bytes after_key;
      ciphertext = take aes_cipher_len after_iv;
      tag = drop aes_cipher_len after_iv;
    }

unfoldable pub unpack : Bytes → Result Parts
unpack all =
    if ltb (length all) (rsa_encrypted_key_bytes + gcm_iv_bytes + gcm_tag_bytes)
    then err (invalid_argument "Ciphertext too short")
    else ok
        (cut all (length (drop gcm_iv_bytes (drop rsa_encrypted_key_bytes all)) - gcm_tag_bytes))

pub length-pack :
    (p : Parts)
    → length (pack p) ≡ length p.wrapped_key + (length p.iv + (length p.ciphertext + length p.tag))
unfolding pack
length-pack p = omega (
  arith,
  length-append p.wrapped_key (p.iv ++ (p.ciphertext ++ p.tag)),
  length-append p.iv (p.ciphertext ++ p.tag),
  length-append p.ciphertext p.tag,
)

module _ (p : Parts) (key : length p.wrapped_key ≡ rsa_encrypted_key_bytes)
    (iv : length p.iv ≡ gcm_iv_bytes) (tag : length p.tag ≡ gcm_tag_bytes) where
  after_key : drop 256 (pack p) ≡ p.iv ++ (p.ciphertext ++ p.tag)
  unfolding pack
  after_key = rw key at (drop-append p.wrapped_key (p.iv ++ (p.ciphertext ++ p.tag)))

  after_iv : drop 12 (drop 256 (pack p)) ≡ p.ciphertext ++ p.tag
  after_iv = rw after_key (rw iv at (drop-append p.iv (p.ciphertext ++ p.tag)))

  ciphertext_size : length (drop 12 (drop 256 (pack p))) - 16 ≡ length p.ciphertext
  ciphertext_size = rw after_iv (omega (arith, length-append p.ciphertext p.tag))

  long_enough : ltb (length (pack p)) 284 ≡ false
  long_enough = ground (arith, length-pack p)

  front : take 256 (pack p) ≡ p.wrapped_key
  unfolding pack
  front = rw key at (take-append p.wrapped_key (p.iv ++ (p.ciphertext ++ p.tag)))

  middle : take 12 (drop 256 (pack p)) ≡ p.iv
  middle = rw after_key (rw iv at (take-append p.iv (p.ciphertext ++ p.tag)))

  body : take (length p.ciphertext) (drop 12 (drop 256 (pack p))) ≡ p.ciphertext
  body = rw after_iv (take-append p.ciphertext p.tag)

  back : drop (length p.ciphertext) (drop 12 (drop 256 (pack p))) ≡ p.tag
  back = rw after_iv (drop-append p.ciphertext p.tag)

  -- What `encrypt` packs `decrypt` takes apart again, for a wrapped key, an IV and a tag of the
  -- lengths of the format and a ciphertext of any length.
  pub unpack-pack : unpack (pack p) ≡ ok p
  unfolding unpack
  unpack-pack = rw (long_enough, ciphertext_size, front, middle, body, back) refl
