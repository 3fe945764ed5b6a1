-- ===== src/Crypto/Base64.antt =====
-- crypto/: the chains of two BIOs that encode and decode base64 without newlines.
use upi_w_o_internet.Common.{ℕ, suc, ◌-◌, ◌≡◌, ap, arith, Option, length}
use upi_w_o_internet.Common.Result.{Action, ok, pure, ◌>>=◌, ◌>>◌}
use upi_w_o_internet.Crypto.OpenSsl.{OpenSsl, Bytes, new_bio, free, require}

module _ (ssl : OpenSsl) where
  open ssl use {
    Bio, bio_f_base64, bio_s_mem, bio_new_mem_buf, bio_push, bio_no_nl, bio_write, bio_flush,
    bio_get_mem, bio_read,
  }

  -- What the chain of a base64 BIO and a memory BIO makes of `bytes`.
  abbrev pub encoded : Bio → Bio → Bytes → Bytes
  encoded b64 bmem bytes = bio_get_mem (bio_flush (bio_write bytes (bio_no_nl (bio_push b64 bmem))))

  -- What it reads from a memory BIO, at most `n` bytes.
  abbrev pub decoded : Bio → Bio → ℕ → Option Bytes
  decoded b64 bmem n = bio_read n (bio_push (bio_no_nl b64) bmem)

  -- `HybridCryptoService::base64Encode`.
  unfoldable pub base64_encode : Bytes → Action ℕ Bytes
  base64_encode bytes = do
    b64 ← new_bio bio_f_base64
    bmem ← new_bio bio_s_mem
    text ← pure (encoded b64 bmem bytes)
    free
    free
    pure text

  -- `HybridCryptoService::base64Decode`: the chain is freed on either branch.
  unfoldable pub base64_decode : Bytes → Action ℕ Bytes
  base64_decode text = do
    b64 ← new_bio bio_f_base64
    bmem ← new_bio (bio_new_mem_buf text)
    out ← pure (decoded b64 bmem (length text))
    free
    free
    require out "Failed to decode base64"

  -- The text of `bytes`, and the bytes of a text.
  abbrev pub to_base64 : Bytes → Bytes
  to_base64 bytes = encoded bio_f_base64 bio_s_mem bytes

  abbrev pub from_base64 : Bytes → Option Bytes
  from_base64 text = decoded bio_f_base64 (bio_new_mem_buf text) (length text)

  freed : (live : ℕ) → suc (suc live) - 1 - 1 ≡ live
  freed live = omega arith

  pub base64_encode_lem :
      (bytes : Bytes) (live : ℕ) → base64_encode bytes live ≡ (ok (to_base64 bytes), live)
  unfolding base64_encode
  base64_encode_lem bytes live = ap (λ n. (ok (to_base64 bytes), n)) (freed live)

  pub base64_decode_lem :
      (text : Bytes) (live : ℕ)
      → base64_decode text live ≡ require (from_base64 text) "Failed to decode base64" live
  unfolding base64_decode
  base64_decode_lem text live =
      ap (require (from_base64 text) "Failed to decode base64") (freed live)
