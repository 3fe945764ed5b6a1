-- ===== src/Checks/Phase1.antt =====
-- crypto/verify_phase1.cpp: the key, the wire format, the round trip, a tampered text.
-- `same` is `==` of the JSON library. Section 3 prints without a test and section 6 prints a hash.
pub mod Outcome
use upi_w_o_internet.Common.{
  ℕ, zero, suc, ◌+◌, ◌-◌, ◌%◌, Bool, true, false, some, List, [], ◌∷◌, length, ◌==◌, if◌then◌else◌,
}
use upi_w_o_internet.Common.Int.{pos}
use upi_w_o_internet.Common.Bytes.{Bytes}
use upi_w_o_internet.Common.Result.{Action, foreign, or_throw, catch, lift, pure, ◌>>=◌, ◌>>◌}
use upi_w_o_internet.Model.Json.{Json}
use upi_w_o_internet.Crypto.OpenSsl.{OpenSsl, new_bio, free}
use upi_w_o_internet.Crypto.Base64.{decoded}
use upi_w_o_internet.Crypto.ServerKey.{new_server_key, get_public_key_base64}
use upi_w_o_internet.Crypto.HybridCrypto.{encrypt, decrypt}
use upi_w_o_internet.Crypto.Service.{Serializer, json_text}
use upi_w_o_internet.Checks.Verdict.{Verdict, pass, fail, verdict}

pub record Findings : Type 0 where
  pub key_header : Verdict
  pub wire_length : Verdict
  pub round_trip : Verdict
  pub tampering : Verdict

-- `rawKey.size() > 0 && rawKey[0] == 0x30`
abbrev pub starts_sequence : Bytes → Bool
starts_sequence [] = false
starts_sequence (b ∷ bs) = b == 48

-- `b ^= 0x01`
abbrev pub flip_bit : ℕ → ℕ
flip_bit b = if b % 2 == 0 then b + 1 else b - 1

-- The byte at an index; a sealed text always has more than 284.
unfoldable pub flip_at : ℕ → Bytes → Bytes
flip_at i [] = []
flip_at zero (b ∷ bs) = flip_bit b ∷ bs
flip_at (suc i) (b ∷ bs) = b ∷ flip_at i bs

module _ (ssl : OpenSsl) (json : Json) (io : Serializer json)
    (same : json.Value → json.Value → Bool) where
  open ssl use {
    Key, bio_f_base64, bio_s_mem, bio_new_mem_buf, bio_push, bio_no_nl, bio_write, bio_flush,
    bio_get_mem,
  }
  open json use {Value, text, integer, object}

  unfoldable pub sample : Value
  sample = object (
      ("senderVpa", text "alice@upi")
      ∷ ("receiverVpa", text "bob@upi")
      ∷ ("amount", integer (pos 50000))
      ∷ ("pinHash", text "abcdef123456")
      ∷ ("nonce", text "unique-nonce-123")
      ∷ ("signedAt", integer (pos 1690000000))
      ∷ [])

  -- `base64DecodeTest`: a negative length does not fit the vector.
  unfoldable pub base64_decode_test : Bytes → Action ℕ Bytes
  base64_decode_test b64 = do
    b64_bio ← new_bio bio_f_base64
    bmem ← new_bio (bio_new_mem_buf b64)
    out ← or_throw (decoded ssl b64_bio bmem (length b64)) (foreign "vector::resize")
    free
    free
    pure out

  unfoldable pub reencode : Bytes → Action ℕ Bytes
  reencode bytes = do
    b64_bio ← new_bio bio_f_base64
    bmem ← new_bio bio_s_mem
    text ← pure (bio_get_mem (bio_flush (bio_write bytes (bio_push (bio_no_nl b64_bio) bmem))))
    free
    free
    pure text

  -- Section 5.
  unfoldable pub check_tampering : Key → Bytes → Action ℕ Verdict
  unfolding flip_at
  check_tampering key raw = do
    tampered ← reencode (flip_at 270 raw)
    catch (do decrypt ssl (json_text json io) key tampered; pure fail) λ e. pure pass

  unfoldable pub verify_phase1 : Action ℕ Findings
  verify_phase1 = do
    key ← new_server_key ssl
    public_key ← get_public_key_base64 ssl (some key)
    raw_key ← base64_decode_test public_key
    plaintext ← lift (io.dump sample)
    ciphertext ← encrypt ssl (json_text json io) 0 sample key
    raw ← base64_decode_test ciphertext
    decrypted ← decrypt ssl (json_text json io) key ciphertext
    tampering ← check_tampering key raw
    pure (record {
      key_header = verdict (starts_sequence raw_key);
      wire_length = verdict (length raw == 256 + 12 + length plaintext + 16);
      round_trip = verdict (same decrypted sample);
      tampering = tampering;
    })
