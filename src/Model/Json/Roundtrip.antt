-- ===== src/Model/Json/Roundtrip.antt =====
-- The JSON of an instruction is read back as what was written.
use upi_w_o_internet.Common.{String, ◌≡◌, refl, some, List}
use upi_w_o_internet.Common.Int.{ℤ, IsInt64}
use upi_w_o_internet.Common.Map.{lookup}
use upi_w_o_internet.Common.Result.{Result, ok}
use upi_w_o_internet.Model.Documented.{IsInt32}
use upi_w_o_internet.Model.Records.{PaymentInstruction}
use upi_w_o_internet.Model.Json.Rounding.{IsExact, IsDouble, to_paise-to_rupees}
use upi_w_o_internet.Model.Json.{Json, instruction_to_json, instruction_from_json, to_rupees}

-- What the library's documentation and the arithmetic of doubles give.
pub record IsJson (json : Json) : Type 0 where
  pub at_object :
      (key : String) (fields : List (String × json.Value)) (v : json.Value)
      → lookup key fields ≡ some v
      → json.at key (json.object fields) ≡ ok v
  pub get_text_text : (s : String) → json.get_text (json.text s) ≡ ok s
  pub get_int64_integer : (n : ℤ) → IsInt64 n → json.get_int64 (json.integer n) ≡ ok n
  pub get_int_integer : (n : ℤ) → IsInt32 n → json.get_int (json.integer n) ≡ ok n
  pub get_double_number : (d : json.Double) → json.get_double (json.number d) ≡ ok d
  pub doubles : IsDouble json

module _ (json : Json) where
  open json use {Value, at, get_text, get_int64, get_double}

  -- A member of an object, and what it converts to.
  abbrev pub Reads : {A : Type 0} → (Value → Result A) → String → Value → A → Type 0
  Reads get key v a = (x : Value) × (at key v ≡ ok x) × (get x ≡ ok a)

  -- A value from which the fields of an instruction can be read.
  pub record Carries (v : Value) (p : PaymentInstruction) : Type 0 where
    pub sender : Reads get_text "senderVpa" v p.sender_vpa
    pub receiver : Reads get_text "receiverVpa" v p.receiver_vpa
    pub amount : Reads get_double "amount" v (to_rupees json p.amount)
    pub pin : Reads get_text "pinHash" v p.pin_hash
    pub nonce : Reads get_text "nonce" v p.nonce
    pub time : Reads get_int64 "signedAt" v p.signed_at

module _ (json : Json) (laws : IsJson json) where
  pub instruction_from_json-Carries :
      (v : json.Value) (p : PaymentInstruction)
      → Carries json v p
      → IsExact p.amount
      → instruction_from_json json v ≡ ok p
  unfolding instruction_from_json
  instruction_from_json-Carries v p c exact =
      rw
        (
          c.sender.1,
          c.sender.2,
          c.receiver.1,
          c.receiver.2,
          c.amount.1,
          c.amount.2,
          c.pin.1,
          c.pin.2,
          c.nonce.1,
          c.nonce.2,
          c.time.1,
          c.time.2,
          to_paise-to_rupees json laws.doubles p.amount exact,
        )
        refl

  pub instruction_to_json-Carries :
      (p : PaymentInstruction) → IsInt64 p.signed_at → Carries json (instruction_to_json json p) p
  unfolding instruction_to_json lookup
  instruction_to_json-Carries p time =
      let fields = laws.at_object in
      record {
        sender = (_, fields "senderVpa" _ _ refl, laws.get_text_text p.sender_vpa);
        receiver = (_, fields "receiverVpa" _ _ refl, laws.get_text_text p.receiver_vpa);
        amount = (_, fields "amount" _ _ refl, laws.get_double_number _);
        pin = (_, fields "pinHash" _ _ refl, laws.get_text_text p.pin_hash);
        nonce = (_, fields "nonce" _ _ refl, laws.get_text_text p.nonce);
        time = (_, fields "signedAt" _ _ refl, laws.get_int64_integer p.signed_at time);
      }

  -- An instruction is read back from its JSON, the amount through rupees included; for an amount of
  -- at most 2^51 paise and a 64-bit time of signing, if the JSON library does what its documentation
  -- says and doubles are rounded as in IEEE 754.
  pub instruction_from_json-instruction_to_json :
      (p : PaymentInstruction)
      → IsExact p.amount
      → IsInt64 p.signed_at
      → instruction_from_json json (instruction_to_json json p) ≡ ok p
  instruction_from_json-instruction_to_json p exact time =
      instruction_from_json-Carries _ p (instruction_to_json-Carries p time) exact
