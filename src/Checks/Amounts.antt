-- ===== src/Checks/Amounts.antt =====
-- model/test_amounts.cpp: the JSON of four amounts.
use upi_w_o_internet.Common.{List, [], ◌∷◌}
use upi_w_o_internet.Common.Int.{ℤ, pos}
use upi_w_o_internet.Common.Bytes.{Bytes}
use upi_w_o_internet.Common.Result.{Result, ok, err}
use upi_w_o_internet.Model.Records.{PaymentInstruction}
use upi_w_o_internet.Model.Json.{Json, instruction_to_json}
use upi_w_o_internet.Crypto.Service.{Serializer}

abbrev pub with_amount : ℤ → PaymentInstruction
with_amount paise = record {
  sender_vpa = "alice@demo";
  receiver_vpa = "bob@demo";
  amount = paise;
  pin_hash = "abc";
  nonce = "123";
  signed_at = pos 1000;
}

module _ (json : Json) (io : Serializer json) where
  -- `testAmount`, with the dump that it prints.
  unfoldable pub test_amount : ℤ → Result Bytes
  test_amount paise = io.dump (instruction_to_json json (with_amount paise))

  -- The dumps of the amounts, in turn; an exception ends the program.
  unfoldable pub test_all : List ℤ → Result (List Bytes)
  test_all [] = ok []
  test_all (paise ∷ rest) = elim (test_amount paise) [
    | err e ↦ err e
    | ok dumped ↦ elim (test_all rest) [ err e ↦ err e | ok others ↦ ok (dumped ∷ others) ]
  ]

  -- `main`.
  unfoldable pub test_amounts : Result (List Bytes)
  test_amounts = test_all (pos 500000 ∷ pos 123456 ∷ pos 50 ∷ pos 999999999 ∷ [])
