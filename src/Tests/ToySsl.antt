-- ===== src/Tests/ToySsl.antt =====
-- A stand-in for OpenSSL whose cipher leaves the text as it is, to run crypto/ on.
use upi_w_o_internet.Common.{
  ℕ, zero, suc, ◌≡◌, refl, Option, none, some, [], ◌∷◌, ◌++◌, take, length, ◌==◌, if◌then◌else◌,
}
use upi_w_o_internet.Common.Result.{ok}
use upi_w_o_internet.Crypto.OpenSsl.{OpenSsl, Bytes}
use upi_w_o_internet.Crypto.Wire.{Parts, pack, unpack, unpack-pack}
use upi_w_o_internet.Crypto.HybridCrypto.{
  JsonText, encrypt, decrypt, aes_encrypt, rsa_wrap, rsa_unwrap, aes_decrypt,
}
use upi_w_o_internet.Crypto.Base64.{base64_encode, base64_decode}
use upi_w_o_internet.Crypto.Release.{encrypt_frees-decrypt_frees}

unfoldable pub zeros : ℕ → Bytes
zeros zero = []
zeros (suc n) = 0 ∷ zeros n

-- A number as so many ones before a zero: an encoding into bytes.
unfoldable pub spell : ℕ → Bytes → Bytes
spell zero bs = 0 ∷ bs
spell (suc n) bs = 1 ∷ spell n bs

unfoldable pub unary : Bytes → Bytes
unfolding spell
unary [] = []
unary (b ∷ bs) = spell b (unary bs)

unfoldable pub count : ℕ → Bytes → Bytes
count n [] = []
count n (zero ∷ bs) = n ∷ count 0 bs
count n (suc b ∷ bs) = count (suc n) bs

-- The toy takes keys of 32 bytes.
abbrev pub wrap : Bytes → Option Bytes
wrap text = if length text == 32 then some (text ++ zeros 224) else none

abbrev pub toy_ssl : OpenSsl
toy_ssl = record {
  Key = Unit;
  Cipher = Bytes;
  Rsa = Unit;
  Digest = Bytes;
  rand_bytes = λ i n. some (zeros n);
  cipher_new = some [];
  encrypt_init = λ c. some c;
  encrypt_set_key = λ key iv c. some c;
  encrypt_update = λ text c. some (text, c);
  encrypt_final = λ c. some ([], c);
  get_tag = λ n c. some (zeros n);
  decrypt_init = λ c. some c;
  decrypt_set_key = λ key iv c. some c;
  decrypt_update = λ text c. some (text, c);
  set_tag = λ tag c. some c;
  decrypt_final = λ c. some [];
  rsa_new = λ key. some tt;
  rsa_encrypt_init = λ c. some c;
  rsa_decrypt_init = λ c. some c;
  set_padding = λ c. some c;
  set_oaep_md = λ c. some c;
  set_mgf1_md = λ c. some c;
  rsa_encrypt_size = λ text c. some 256;
  rsa_encrypt = λ text c. wrap text;
  rsa_decrypt_size = λ text c. some 256;
  rsa_decrypt = λ text c. some (take 32 text);
  Bio = Bytes;
  bio_f_base64 = [];
  bio_s_mem = [];
  bio_new_mem_buf = λ bytes. bytes;
  bio_push = λ b64 bmem. bmem;
  bio_no_nl = λ bio. bio;
  bio_write = λ bytes bio. unary bytes;
  bio_flush = λ bio. bio;
  bio_get_mem = λ bio. bio;
  bio_read = λ n bio. some (count 0 bio);
  digest_new = some [];
  digest_init = λ c. some c;
  digest_update = λ bytes c. some bytes;
  digest_final = λ c. some (take 32 c);
  keygen_new = some tt;
  keygen_init = λ c. some c;
  keygen_bits = λ n c. some c;
  keygen = λ c. some tt;
  public_der = λ key. some (zeros 3);
}

abbrev pub toy_json : JsonText
toy_json = record { Json = Bytes; dump = λ json. ok json; parse = λ bytes. ok bytes }

abbrev pub hello : Bytes
hello = 104 ∷ 105 ∷ []

abbrev pub sealed : Bytes
sealed = unary (zeros 256 ++ (zeros 12 ++ (hello ++ zeros 16)))

pub encrypt_test : encrypt toy_ssl toy_json 0 hello tt 0 ≡ (ok sealed, 0)
unfolding encrypt base64_encode aes_encrypt rsa_wrap zeros pack unary
encrypt_test = refl

pub decrypt_test : decrypt toy_ssl toy_json tt sealed 0 ≡ (ok hello, 0)
unfolding decrypt base64_decode unpack zeros rsa_unwrap aes_decrypt unary count spell
decrypt_test = refl

encrypt_frees-decrypt_frees_example :
    ((encrypt toy_ssl toy_json 0 hello tt 3).1 ≡ 3) × ((decrypt toy_ssl toy_json tt sealed 3).1 ≡ 3)
encrypt_frees-decrypt_frees_example =
    encrypt_frees-decrypt_frees toy_ssl toy_json 0 hello tt sealed 3

abbrev parts : Parts
parts = record { wrapped_key = zeros 256; iv = zeros 12; ciphertext = hello; tag = zeros 16 }

unpack-pack_example : unpack (pack parts) ≡ ok parts
unfolding zeros
unpack-pack_example = unpack-pack parts refl refl refl
