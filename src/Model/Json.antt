-- ===== src/Model/Json.antt =====
-- The JSON conversions in model/PaymentInstruction.h, Account.h, Transaction.h and MeshPacket.h.
-- nlohmann::json and the arithmetic of `double` are a parameter: a value in a program is an
-- interface of constructors, of member access and of conversions that may throw.
pub mod Rounding
pub mod Roundtrip
use upi_w_o_internet.Common.{ℕ, String, List, [], ◌∷◌}
use upi_w_o_internet.Common.Int.{ℤ}
use upi_w_o_internet.Common.Result.{Result, ok, err, Exception}
use upi_w_o_internet.Model.Records.{
  Account, MeshPacket, PaymentInstruction, Transaction, status_to_string,
}

infixl 5 ◌>>=◌
abbrev ◌>>=◌ : {A B : Type 0} → Result A → (A → Result B) → Result B
ok a >>= f = f a
err e >>= f = err e

pub record Json : Type 1 where
  pub Value : Type 0
  pub Double : Type 0
  -- json(std::string), json(int64_t), json(double), and an initializer list of pairs
  pub text : String → Value
  pub integer : ℤ → Value
  pub number : Double → Value
  pub object : List (String × Value) → Value
  -- at(key), and get_to for the types of the fields
  pub at : String → Value → Result Value
  pub get_text : Value → Result String
  pub get_int64 : Value → Result ℤ
  pub get_int : Value → Result ℤ
  pub get_double : Value → Result Double
  -- static_cast, 100.0, division, multiplication, std::round
  pub of_int64 : ℤ → Double
  pub hundred : Double
  pub div : Double → Double → Double
  pub mul : Double → Double → Double
  pub round : Double → Double
  pub to_int64 : Double → ℤ

module _ (json : Json) where
  open json use {
    Value, Double, text, integer, number, object, at, get_text, get_int64, get_int, get_double,
    of_int64, hundred, div, mul, round, to_int64,
  }

  -- Paise to rupees, and back.
  unfoldable pub to_rupees : ℤ → Double
  to_rupees paise = div (of_int64 paise) hundred

  unfoldable pub to_paise : Double → ℤ
  to_paise rupees = to_int64 (round (mul rupees hundred))

  unfoldable pub instruction_to_json : PaymentInstruction → Value
  unfolding to_rupees
  instruction_to_json p = object (
      ("senderVpa", text p.sender_vpa)
      ∷ ("receiverVpa", text p.receiver_vpa)
      ∷ ("amount", number (to_rupees p.amount))
      ∷ ("pinHash", text p.pin_hash)
      ∷ ("nonce", text p.nonce)
      ∷ ("signedAt", integer p.signed_at)
      ∷ [])

  -- `j.at(key).get_to(field)`
  abbrev text_at : String → Value → Result String
  text_at key j = do v ← at key j; get_text v

  unfoldable pub instruction_from_json : Value → Result PaymentInstruction
  unfolding to_paise
  instruction_from_json j = do
    sender_vpa ← text_at "senderVpa" j
    receiver_vpa ← text_at "receiverVpa" j
    amount ← at "amount" j
    rupees ← get_double amount
    pin_hash ← text_at "pinHash" j
    nonce ← text_at "nonce" j
    signed_at ← at "signedAt" j
    millis ← get_int64 signed_at
    ok (record {
      sender_vpa = sender_vpa;
      receiver_vpa = receiver_vpa;
      amount = to_paise rupees;
      pin_hash = pin_hash;
      nonce = nonce;
      signed_at = millis;
    })

  unfoldable pub account_to_json : Account → Value
  unfolding to_rupees
  account_to_json a = object (
      ("vpa", text a.vpa)
      ∷ ("holderName", text a.holder_name)
      ∷ ("balance", number (to_rupees a.balance))
      ∷ ("version", integer a.version)
      ∷ [])

  unfoldable pub transaction_to_json : Transaction → Value
  unfolding to_rupees status_to_string
  transaction_to_json t = object (
      ("id", integer t.id)
      ∷ ("packetHash", text t.packet_hash)
      ∷ ("senderVpa", text t.sender_vpa)
      ∷ ("receiverVpa", text t.receiver_vpa)
      ∷ ("amount", number (to_rupees t.amount))
      ∷ ("signedAt", integer t.signed_at)
      ∷ ("settledAt", integer t.settled_at)
      ∷ ("bridgeNodeId", text t.bridge_node_id)
      ∷ ("hopCount", integer t.hop_count)
      ∷ ("status", text (status_to_string t.status))
      ∷ [])
