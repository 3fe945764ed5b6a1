-- ===== src/Model/Json/Rounding.antt =====
-- The arithmetic of `double` in model/PaymentInstruction.h: paise to rupees and back.
use upi_w_o_internet.Common.{
  ℕ, zero, suc, ◌+◌, ◌*◌, ◌≤◌, ◌<◌, ◌≡◌, ◌∙◌, Bool, true, false, ◌⊎◌, inl, inr, arith,
}
use upi_w_o_internet.Common.Int.{ℤ, pos, negsuc, pos_part, neg_part}
use upi_w_o_internet.Model.Json.{Json, to_paise, to_rupees}

-- At most 2^51 paise: below it the rounding errors of a division and of a multiplication stay under
-- half a paisa.
abbrev pub size : ℤ → ℕ
size n = pos_part n + neg_part n

abbrev pub IsExact : ℤ → Type 0
IsExact n = size n ≤ 2251799813685248

abbrev pub is_negative : ℤ → Bool
is_negative (pos n) = false
is_negative (negsuc n) = true

-- `a` is `b`, rounded to 53 bits: it is off by one part in 2^53 + 1 at most.
abbrev pub Near : ℕ → ℕ → Type 0
Near a b =
    (9007199254740993 * a ≤ 9007199254740994 * b) × (9007199254740992 * b ≤ 9007199254740993 * a)

-- What IEEE 754 says of the operations. Every finite double is a multiple of 2^-1074: `magnitude` is
-- its absolute value as such a multiple, and `unit` that of 1.
pub record IsDouble (json : Json) : Type 0 where
  pub unit : ℕ
  pub positive : 0 < unit
  pub magnitude : json.Double → ℕ
  pub negative : json.Double → Bool
  -- an integer of at most 53 bits is a double
  pub integers :
      (n : ℤ)
      → IsExact n
      → (magnitude (json.of_int64 n) ≡ size n * unit) × (negative (json.of_int64 n) ≡ is_negative n)
  -- the quotient of an integer and 100 is rounded to the nearest
  pub divides :
      (n : ℤ)
      → IsExact n
      → Near
          (100 * magnitude (json.div (json.of_int64 n) json.hundred))
          (magnitude (json.of_int64 n))
        × (negative (json.div (json.of_int64 n) json.hundred) ≡ negative (json.of_int64 n))
  -- so is the product with 100, of zero or of a number that neither underflows nor overflows
  pub multiplies :
      (d : json.Double)
      → (magnitude d ≡ 0) ⊎ (unit ≤ 1000 * magnitude d)
      → magnitude d ≤ 4503599627370496 * unit
      → Near (magnitude (json.mul d json.hundred)) (100 * magnitude d)
        × (negative (json.mul d json.hundred) ≡ negative d)
  -- `std::round` gives the only integer that is nearer than a half
  pub rounds :
      (d : json.Double) (n : ℤ)
      → IsExact n
      → 2 * magnitude d < 2 * (size n * unit) + unit
      → 2 * (size n * unit) < 2 * magnitude d + unit
      → negative d ≡ is_negative n
      → (magnitude (json.round d) ≡ size n * unit) × (negative (json.round d) ≡ is_negative n)
  -- the cast of an integer
  pub truncates :
      (d : json.Double) (n : ℤ)
      → IsExact n
      → magnitude d ≡ size n * unit
      → negative d ≡ is_negative n
      → json.to_int64 d ≡ n

multiples_le : (a b c : ℕ) → a ≤ b → a * c ≤ b * c
multiples_le a b zero h = omega (arith, h)
multiples_le a b (suc c) h = omega (arith, h, multiples_le a b c h)

multiples : (a c : ℕ) → (a * c ≡ 0) ⊎ (c ≤ a * c)
multiples zero c = inl (omega arith)
multiples (suc a) c = inr (omega arith)

module _ (unit n q p : ℕ) (positive : 0 < unit) (bound : n ≤ 2251799813685248 * unit)
    (divides : Near (100 * q) n) where
  quotient_bound : q ≤ 4503599627370496 * unit
  quotient_bound = omega (arith, positive, bound, divides)

  quotient_normal : (n ≡ 0) ⊎ (unit ≤ n) → (q ≡ 0) ⊎ (unit ≤ 1000 * q)
  quotient_normal (inl none) = inl (omega (arith, none, divides))
  quotient_normal (inr some) = inr (omega (arith, some, positive, divides))

  -- The two errors come to less than a half.
  product_high : Near p (100 * q) → 2 * p < 2 * n + unit
  product_high multiplies = omega (arith, positive, bound, divides, multiplies)

  product_low : Near p (100 * q) → 2 * n < 2 * p + unit
  product_low multiplies = omega (arith, positive, bound, divides, multiplies)

module _ (json : Json) (laws : IsDouble json) where
  open laws use {unit, magnitude}

  -- Paise are read back from rupees as they were.
  pub to_paise-to_rupees : (n : ℤ) → IsExact n → to_paise json (to_rupees json n) ≡ n
  unfolding to_paise to_rupees
  to_paise-to_rupees n exact =
      let (whole, sign) = laws.integers n exact in
      let (divides, keeps) = laws.divides n exact in
      let d = json.div (json.of_int64 n) json.hundred in
      let near : Near (100 * magnitude d) (size n * unit) = rw whole at divides in
      let bound : size n * unit ≤ 2251799813685248 * unit = multiples_le _ _ unit exact in
      let (multiplies, keeps') =
        laws.multiplies d
          (quotient_normal unit (size n * unit) (magnitude d) 0 laws.positive bound near
            (multiples (size n) unit))
          (quotient_bound unit (size n * unit) (magnitude d) 0 laws.positive bound near) in
      let p = json.mul d json.hundred in
      let (rounded, keeps'') =
        laws.rounds p n exact
          (product_high unit (size n * unit) (magnitude d) (magnitude p) laws.positive bound near
            multiplies)
          (product_low unit (size n * unit) (magnitude d) (magnitude p) laws.positive bound near
            multiplies)
          (keeps' ∙ keeps ∙ sign) in
      laws.truncates (json.round p) n exact rounded keeps''
