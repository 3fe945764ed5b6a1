-- ===== src/Model/Records.antt =====
-- model/Account.h, Transaction.h, MeshPacket.h and PaymentInstruction.h: the plain data.
pub mod Same
use upi_w_o_internet.Common.{String, ◌≡◌, refl, Bool, ◌&&◌, if◌then◌else◌}
use upi_w_o_internet.Common.Int.{ℤ, leb_ℤ}
use upi_w_o_internet.Common.Text.{str_eq}

pub record Account : Type 0 where
  pub vpa : String
  pub holder_name : String
  pub balance : ℤ
  pub version : ℤ

pub data Status : Type 0 where
  settled rejected duplicate_dropped invalid : Status

unfoldable pub status_to_string : Status → String
status_to_string settled = "SETTLED"
status_to_string rejected = "REJECTED"
status_to_string duplicate_dropped = "DUPLICATE_DROPPED"
status_to_string invalid = "INVALID"

unfoldable pub parse_status : String → Status
parse_status str =
    if str_eq str "SETTLED"
    then settled
    else if str_eq str "REJECTED"
    then rejected
    else if str_eq str "DUPLICATE_DROPPED"
    then duplicate_dropped
    else if str_eq str "INVALID"
    then invalid
    else invalid

pub record Transaction : Type 0 where
  pub id : ℤ
  pub packet_hash : String
  pub sender_vpa : String
  pub receiver_vpa : String
  pub amount : ℤ
  pub signed_at : ℤ
  pub settled_at : ℤ
  pub bridge_node_id : String
  pub hop_count : ℤ
  pub status : Status

pub record MeshPacket : Type 0 where
  pub packet_id : String
  pub ttl : ℤ
  pub created_at : ℤ
  pub ciphertext : String

pub record PaymentInstruction : Type 0 where
  pub sender_vpa : String
  pub receiver_vpa : String
  pub amount : ℤ
  pub pin_hash : String
  pub nonce : String
  pub signed_at : ℤ

eq_ℤ : ℤ → ℤ → Bool
eq_ℤ a b = leb_ℤ a b && leb_ℤ b a

-- `PaymentInstruction::operator==`
unfoldable pub same_instruction : PaymentInstruction → PaymentInstruction → Bool
unfolding eq_ℤ
same_instruction p o =
    str_eq p.sender_vpa o.sender_vpa
    && (str_eq p.receiver_vpa o.receiver_vpa
        && (eq_ℤ p.amount o.amount
            && (str_eq p.pin_hash o.pin_hash
                && (str_eq p.nonce o.nonce && eq_ℤ p.signed_at o.signed_at))))

-- The four texts that the database holds are read back as the statuses that were written.
pub parse_status-status_to_string : (s : Status) → parse_status (status_to_string s) ≡ s
unfolding parse_status status_to_string
parse_status-status_to_string settled = refl
parse_status-status_to_string rejected = refl
parse_status-status_to_string duplicate_dropped = refl
parse_status-status_to_string invalid = refl
