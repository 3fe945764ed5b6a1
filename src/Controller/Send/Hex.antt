-- ===== src/Controller/Send/Hex.antt =====
-- sha256Hex writes a digest as HybridCryptoService::hashCiphertext does.
use upi_w_o_internet.Common.{◌≡◌, refl, [], ◌∷◌, arith, All}
use upi_w_o_internet.Common.Bytes.{Bytes, IsByte}
use upi_w_o_internet.Crypto.Hex.{to_hex}
use upi_w_o_internet.Controller.Send.{stream_hex}

-- The stream of demoSend and the `snprintf` of hashCiphertext write the same text for any bytes.
pub stream_hex-eq-to_hex : (bs : Bytes) → All IsByte bs → stream_hex bs ≡ to_hex bs
unfolding stream_hex to_hex
stream_hex-eq-to_hex [] h = refl
stream_hex-eq-to_hex (b ∷ bs) h = ground (arith, stream_hex-eq-to_hex bs h.1)
