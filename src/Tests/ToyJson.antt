-- ===== src/Tests/ToyJson.antt =====
-- A JSON library with exact rupees, whose texts stand for one instruction only.
use upi_w_o_internet.Common.{
  ap, true, ℕ, zero, suc, ◌/◌, ◌<◌, ◌+◌, ◌*◌, ◌≡◌, refl, sym, subst, String, Bool, false, Option,
  none, some, [], ◌∷◌, inl, inr, Bool-cases, if◌then◌else◌, arith,
}
use upi_w_o_internet.Common.Int.{ℤ, pos, negsuc}
use upi_w_o_internet.Common.Bytes.{Bytes}
use upi_w_o_internet.Common.Map.{lookup, is_some}
use upi_w_o_internet.Common.Result.{Result, ok, err, foreign}
use upi_w_o_internet.Model.Records.{PaymentInstruction, same_instruction}
use upi_w_o_internet.Model.Records.Same.{same_instruction→≡}
use upi_w_o_internet.Model.Json.{
  Json, instruction_to_json, instruction_from_json, to_paise, to_rupees,
}
use upi_w_o_internet.Model.Json.Rounding.{size, is_negative, IsDouble}
use upi_w_o_internet.Model.Json.Roundtrip.{
  IsJson, Carries, instruction_to_json-Carries, instruction_from_json-instruction_to_json,
}
use upi_w_o_internet.Crypto.Service.{Serializer}
use upi_w_o_internet.Crypto.Service.Delivery.{IsSerializer}

pub data Amount : Type 0 where
  exact : ℤ → Amount
  hundredth : ℤ → Amount

pub data Node : Type 0 where
  text : String → Node
  integer : ℤ → Node
  number : Amount → Node
  -- the keys, and the value under each
  object : (String → Bool) → (String → Node) → Node

abbrev pub or_empty : Option Node → Node
or_empty none = text ""
or_empty (some v) = v

abbrev pub at : String → Node → Result Node
at key (object has get) = if has key then ok (get key) else err (foreign "out_of_range")
at key v = err (foreign "type_error")

abbrev pub get_text : Node → Result String
get_text (text s) = ok s
get_text v = err (foreign "type_error")

abbrev pub get_integer : Node → Result ℤ
get_integer (integer n) = ok n
get_integer v = err (foreign "type_error")

abbrev pub get_number : Node → Result Amount
get_number (integer n) = ok (exact n)
get_number (number d) = ok d
get_number v = err (foreign "type_error")

abbrev pub times_hundred : ℤ → ℤ
times_hundred (pos n) = pos (n * 100)
times_hundred (negsuc n) = negsuc (n * 100 + 99)

abbrev pub mul : Amount → Amount
mul (exact n) = exact (times_hundred n)
mul (hundredth n) = exact n

abbrev pub of_sign : Bool → ℕ → ℤ
of_sign negative zero = pos 0
of_sign true (suc n) = negsuc n
of_sign false (suc n) = pos (suc n)

abbrev pub value : Amount → ℤ
value (exact n) = n
value (hundredth n) = n

-- The nearest integer, for hundredths.
abbrev pub nearest : Amount → Amount
nearest (exact n) = exact n
nearest (hundredth (pos n)) = exact (pos ((n + 50) / 100))
nearest (hundredth (negsuc n)) = exact (of_sign true ((n + 51) / 100))

abbrev pub truncated : Amount → ℤ
truncated (exact n) = n
truncated (hundredth (pos n)) = pos (n / 100)
truncated (hundredth (negsuc n)) = of_sign true ((n + 1) / 100)

-- A double as a number of hundredths, and its sign.
abbrev pub hundredths : Amount → ℕ
hundredths (exact n) = size n * 100
hundredths (hundredth n) = size n

abbrev pub below_zero : Amount → Bool
below_zero (exact n) = is_negative n
below_zero (hundredth n) = is_negative n

abbrev pub toy_values : Json
toy_values = record {
  Value = Node;
  Double = Amount;
  text = text;
  integer = integer;
  number = number;
  object =
      λ fields. object (λ key. is_some (lookup key fields)) (λ key. or_empty (lookup key fields));
  at = at;
  get_text = get_text;
  get_int64 = get_integer;
  get_int = get_integer;
  get_double = get_number;
  of_int64 = exact;
  hundred = exact (pos 100);
  div = λ a b. hundredth (value a);
  mul = λ a b. mul a;
  round = nearest;
  to_int64 = truncated;
}

times_hundred_lem :
    (n : ℤ)
    → (size (times_hundred n) ≡ size n * 100) × (is_negative (times_hundred n) ≡ is_negative n)
times_hundred_lem (pos n) = (omega arith, refl)
times_hundred_lem (negsuc n) = (omega arith, refl)

multiplies :
    (d : Amount) → (hundredths (mul d) ≡ 100 * hundredths d) × (below_zero (mul d) ≡ below_zero d)
multiplies (exact n) = let (e, s) = times_hundred_lem n in (omega (arith, e), s)
multiplies (hundredth n) = (omega arith, refl)

exact_size : (a n : ℤ) → size a ≡ size n → is_negative a ≡ is_negative n → a ≡ n
exact_size (pos a) (pos n) e s = ap pos (omega (arith, e))
exact_size (pos a) (negsuc n) e s = cc
exact_size (negsuc a) (pos n) e s = cc
exact_size (negsuc a) (negsuc n) e s = ap negsuc (omega (arith, e))

rounds :
    (d : Amount) (n : ℤ)
    → 2 * hundredths d < 2 * (size n * 100) + 100
    → 2 * (size n * 100) < 2 * hundredths d + 100
    → below_zero d ≡ is_negative n
    → nearest d ≡ exact n
rounds (exact a) n hi lo s = ap exact (exact_size a n (omega (arith, hi, lo)) s)
rounds (hundredth (pos a)) (pos n) hi lo s = ap (λ k. exact (pos k)) (omega (arith, hi, lo))
rounds (hundredth (pos a)) (negsuc n) hi lo s = cc
rounds (hundredth (negsuc a)) (pos n) hi lo s = cc
rounds (hundredth (negsuc a)) (negsuc n) hi lo s =
    let e : (a + 51) / 100 ≡ suc n = omega (arith, hi, lo) in rw e refl

truncates :
    (d : Amount) (n : ℤ)
    → hundredths d ≡ size n * 100
    → below_zero d ≡ is_negative n
    → truncated d ≡ n
truncates (exact a) n e s = exact_size a n (omega (arith, e)) s
truncates (hundredth (pos a)) (pos n) e s = ap pos (omega (arith, e))
truncates (hundredth (pos a)) (negsuc n) e s = cc
truncates (hundredth (negsuc a)) (pos n) e s = cc
truncates (hundredth (negsuc a)) (negsuc n) e s =
    let q : (a + 1) / 100 ≡ suc n = omega (arith, e) in rw q refl

toy_values-IsDouble : IsDouble toy_values
toy_values-IsDouble = record {
  unit = 100;
  positive = omega arith;
  magnitude = hundredths;
  negative = below_zero;
  integers = λ n h. (refl, refl);
  divides = λ n h. ((omega arith, omega arith), refl);
  multiplies =
      λ d normal bound. let (e, s) = multiplies d in ((omega (arith, e), omega (arith, e)), s);
  rounds = λ d n h hi lo s. let e = rounds d n hi lo s in rw e (refl, refl);
  truncates = λ d n h e s. truncates d n e s;
}

pub toy_values-IsJson : IsJson toy_values
toy_values-IsJson = record {
  at_object = λ key fields v h. rw h refl;
  get_text_text = λ s. refl;
  get_int64_integer = λ n h. refl;
  get_int_integer = λ n h. refl;
  get_double_number = λ d. refl;
  doubles = toy_values-IsDouble;
}

abbrev pub rupees_500 : PaymentInstruction
rupees_500 = record {
  sender_vpa = "alice@upi";
  receiver_vpa = "bob@upi";
  amount = pos 5000000;
  pin_hash = "abcdef123456";
  nonce = "unique-nonce-123";
  signed_at = pos 1690000000;
}

abbrev pub write : Result PaymentInstruction → Result Bytes
write (ok p) = if same_instruction p rupees_500 then ok (123 ∷ []) else err (foreign "type_error")
write (err e) = err e

abbrev pub toy_io : Serializer toy_values
toy_io = record {
  dump = λ v. write (instruction_from_json toy_values v);
  parse = λ bs. ok (instruction_to_json toy_values rupees_500);
}

-- `==`, on values that read as instructions.
abbrev pub same_read : Result PaymentInstruction → Result PaymentInstruction → Bool
same_read (ok p) (ok o) = same_instruction p o
same_read p o = false

abbrev pub same : Node → Node → Bool
same v w = same_read (instruction_from_json toy_values v) (instruction_from_json toy_values w)

write_lem : (p : PaymentInstruction) (bs : Bytes) → write (ok p) ≡ ok bs → p ≡ rupees_500
write_lem p bs h = elim (Bool-cases (same_instruction p rupees_500)) [
  | inl equal ↦ same_instruction→≡ p rupees_500 equal
  | inr different ↦ cc
]

reads :
    (v : Node) (p : PaymentInstruction)
    → Carries toy_values v p
    → instruction_from_json toy_values v ≡ ok p
unfolding instruction_from_json to_paise to_rupees
reads v p c =
    rw
      (
        c.sender.1, c.sender.2, c.receiver.1, c.receiver.2, c.amount.1, c.amount.2, c.pin.1,
        c.pin.2, c.nonce.1, c.nonce.2, c.time.1, c.time.2,
      )
      refl

rupees_500-Carries : Carries toy_values (instruction_to_json toy_values rupees_500) rupees_500
rupees_500-Carries =
    instruction_to_json-Carries toy_values toy_values-IsJson rupees_500 (omega arith, omega arith)

pub toy_io-IsSerializer : IsSerializer toy_values toy_io
toy_io-IsSerializer = record {
  parses = λ v bs p carries dumps.
      let dumps' : write (ok p) ≡ ok bs = rw (reads v p carries) at dumps in
      let e = write_lem p bs dumps' in
      (
        instruction_to_json toy_values rupees_500,
        refl,
        subst (λ r. Carries toy_values (instruction_to_json toy_values rupees_500) r) (sym e)
            rupees_500-Carries,
      );
}

instruction_from_json-instruction_to_json_example :
    instruction_from_json toy_values (instruction_to_json toy_values rupees_500) ≡ ok rupees_500
instruction_from_json-instruction_to_json_example =
    instruction_from_json-instruction_to_json toy_values toy_values-IsJson rupees_500 (omega arith)
      (omega arith, omega arith)
