-- ===== src/Crypto/Hex.antt =====
-- The lower-case hexadecimal text of a digest, `snprintf("%02x")` byte by byte.
use upi_w_o_internet.Common.{
  ℕ, ◌+◌, ◌*◌, ◌/◌, ◌%◌, ◌≡◌, refl, [], ◌∷◌, arith, ltb, length, All, if◌then◌else◌,
}
use upi_w_o_internet.Common.Bytes.{Bytes, IsByte}

hex_digit : ℕ → ℕ
hex_digit n = if ltb n 10 then b'0' + n else 87 + n

unfoldable pub to_hex : Bytes → Bytes
unfolding hex_digit
to_hex [] = []
to_hex (b ∷ bs) = hex_digit (b / 16) ∷ hex_digit (b % 16) ∷ to_hex bs

pub length-to_hex : (bs : Bytes) → length (to_hex bs) ≡ 2 * length bs
unfolding to_hex
length-to_hex [] = refl
length-to_hex (b ∷ bs) = omega (arith, length-to_hex bs)

hex_byte-injective :
    (a b : ℕ)
    → IsByte a
    → IsByte b
    → hex_digit (a / 16) ≡ hex_digit (b / 16)
    → hex_digit (a % 16) ≡ hex_digit (b % 16)
    → a ≡ b
unfolding hex_digit
hex_byte-injective a b ha hb high low = ground arith

-- Two strings of bytes have the same hexadecimal text only if they are equal, so the text of a
-- digest stands for the digest.
pub to_hex-injective :
    (as' bs : Bytes) → All IsByte as' → All IsByte bs → to_hex as' ≡ to_hex bs → as' ≡ bs
unfolding to_hex
to_hex-injective [] [] ha hb e = refl
to_hex-injective [] (b ∷ bs) ha hb e = cc
to_hex-injective (a ∷ as') [] ha hb e = cc
to_hex-injective (a ∷ as') (b ∷ bs) ha hb e =
    ground (arith, hex_byte-injective a b ha.0 hb.0, to_hex-injective as' bs ha.1 hb.1)
