-- ===== src/Model/Records/Same.antt =====
-- PaymentInstruction::operator==.
use upi_w_o_internet.Common.{◌≡◌, refl, subst, Bool, true, false, ◌&&◌, ◌↔◌, arith}
use upi_w_o_internet.Common.Int.{ℤ, pos, negsuc}
use upi_w_o_internet.Common.Text.{str_eq, str_eq_refl, str_eq→≡}
use upi_w_o_internet.Model.Records.{PaymentInstruction, same_instruction, eq_ℤ}

eq_ℤ→≡ : (a b : ℤ) → eq_ℤ a b ≡ true → a ≡ b
unfolding eq_ℤ
eq_ℤ→≡ (pos a) (pos b) h = ground arith
eq_ℤ→≡ (pos a) (negsuc b) h = ground arith
eq_ℤ→≡ (negsuc a) (pos b) h = ground arith
eq_ℤ→≡ (negsuc a) (negsuc b) h = ground arith

eq_ℤ_refl : (a : ℤ) → eq_ℤ a a ≡ true
unfolding eq_ℤ
eq_ℤ_refl (pos a) = ground arith
eq_ℤ_refl (negsuc a) = ground arith

both : (a b : Bool) → (a && b) ≡ true → (a ≡ true) × (b ≡ true)
both true b h = (refl, h)
both false b h = cc

pub same_instruction→≡ : (p o : PaymentInstruction) → same_instruction p o ≡ true → p ≡ o
unfolding same_instruction
same_instruction→≡ p o h =
    let (sender, h₁) = both (str_eq p.sender_vpa o.sender_vpa) _ h in
    let (receiver, h₂) = both (str_eq p.receiver_vpa o.receiver_vpa) _ h₁ in
    let (amount, h₃) = both (eq_ℤ p.amount o.amount) _ h₂ in
    let (pin, h₄) = both (str_eq p.pin_hash o.pin_hash) _ h₃ in
    let (nonce, time) = both (str_eq p.nonce o.nonce) _ h₄ in
    let sender' = str_eq→≡ p.sender_vpa o.sender_vpa sender in
    let receiver' = str_eq→≡ p.receiver_vpa o.receiver_vpa receiver in
    let amount' = eq_ℤ→≡ p.amount o.amount amount in
    let pin' = str_eq→≡ p.pin_hash o.pin_hash pin in
    let nonce' = str_eq→≡ p.nonce o.nonce nonce in
    let time' = eq_ℤ→≡ p.signed_at o.signed_at time in cc

pub same_instruction_refl : (p : PaymentInstruction) → same_instruction p p ≡ true
unfolding same_instruction
same_instruction_refl p =
    rw
      (
        str_eq_refl p.sender_vpa,
        str_eq_refl p.receiver_vpa,
        eq_ℤ_refl p.amount,
        str_eq_refl p.pin_hash,
        str_eq_refl p.nonce,
        eq_ℤ_refl p.signed_at,
      )
      refl

-- Two instructions compare equal exactly if they are equal in all six fields.
pub same_instruction_iff : (p o : PaymentInstruction) → (same_instruction p o ≡ true) ↔ (p ≡ o)
same_instruction_iff p o = (
  same_instruction→≡ p o,
  λ e. subst (λ o. same_instruction p o ≡ true) e (same_instruction_refl p),
)
