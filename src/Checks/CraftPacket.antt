-- ===== src/Checks/CraftPacket.antt =====
-- craft_packet.cpp: a packet for a public key and a time of signing.
use Prim.Native.String.{◌++◌ as ◌<>◌}
use upi_w_o_internet.Common.{String, Option, none, some, List, [], ◌∷◌}
use upi_w_o_internet.Common.Int.{ℤ, pos}
use upi_w_o_internet.Common.Bytes.{Bytes, bytes_of_text}
use upi_w_o_internet.Common.Result.{Result, ok, err, foreign}
use upi_w_o_internet.Model.Json.{Json}
use upi_w_o_internet.Crypto.OpenSsl.{OpenSsl}
use upi_w_o_internet.Crypto.Base64.{from_base64}
use upi_w_o_internet.Crypto.Service.{Serializer, encrypt_text}

-- An exit code, with what was printed on standard output.
pub data Exit : Type 0 where
  printed : String → Exit
  failed : Exit

-- `std::stol`, `std::to_string` and d2i_PUBKEY.
module _ (ssl : OpenSsl) (json : Json) (io : Serializer json) (stol : String → Result ℤ)
    (to_string : ℤ → String) (read_public_key : Bytes → Option ssl.Key) where
  open json use {Value, text, integer, object}

  -- `base64DecodeEx`: a negative length does not fit the vector.
  unfoldable pub base64_decode_ex : String → Result Bytes
  base64_decode_ex b64 = elim (from_base64 ssl (bytes_of_text b64)) [
    | none ↦ err (foreign "vector::resize")
    | some bs ↦ ok bs
  ]

  unfoldable pub direct_payment : ℤ → Value
  direct_payment signed_at = object (
      ("senderVpa", text "alice@demo")
      ∷ ("receiverVpa", text "bob@demo")
      ∷ ("amount", integer (pos 250))
      ∷ ("pinHash", text "8d969eef6ecad3c29a3a629280e686cf0c3f5d5a86aff3ca12020c923adc6c92")
      ∷ ("nonce", text ("direct-test-uuid-" <> to_string signed_at))
      ∷ ("ttl", integer (pos 5))
      ∷ ("signedAt", integer signed_at)
      ∷ [])

  -- The `try`.
  unfoldable pub print_packet : ssl.Key → ℤ → Exit
  print_packet key signed_at = elim (encrypt_text ssl json io key 0 (direct_payment signed_at)) [
    | ok packet ↦ printed packet
    | err e ↦ failed
  ]

  abbrev pub with_key : ℤ → Option ssl.Key → Exit
  with_key signed_at none = failed
  with_key signed_at (some key) = print_packet key signed_at

  abbrev pub with_time : String → Result ℤ → Result Exit
  with_time pk_b64 (err e) = err e
  with_time pk_b64 (ok signed_at) = elim (base64_decode_ex pk_b64) [
    | err e ↦ err e
    | ok der ↦ ok (with_key signed_at (read_public_key der))
  ]

  -- `main`, with the arguments after the program's name. An exception ends the program.
  unfoldable pub craft_packet : List String → Result Exit
  craft_packet (pk_b64 ∷ signed_at ∷ []) = with_time pk_b64 (stol signed_at)
  craft_packet args = ok failed
