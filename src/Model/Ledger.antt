-- ===== src/Model/Ledger.antt =====
-- The accounts table as a ledger: one row for each VPA, no debts, and the sum of the balances.
use text.Mathlib.TextEquality.{eq_iff}
use upi_w_o_internet.Common.{
  String, ◌≡◌, refl, ◌≢◌, none, some, List, [], ◌∷◌, arith, if◌then◌else◌,
}
use upi_w_o_internet.Common.Int.{ℤ, pos, ◌+ℤ◌, ◌≤ℤ◌, int_laws}
use upi_w_o_internet.Common.Text.{str_eq}
use upi_w_o_internet.Model.Records.{Account}
use upi_w_o_internet.Model.Tables.{find_account, upsert}

-- The sum of the balances.
abbrev pub total : List Account → ℤ
total [] = pos 0
total (a ∷ as') = a.balance +ℤ total as'

-- No VPA stands twice, and no balance is negative.
abbrev pub IsLedger : List Account → Type 0
IsLedger [] = Unit
IsLedger (a ∷ as') = (find_account a.vpa as' ≡ none) × (pos 0 ≤ℤ a.balance) × IsLedger as'

pub find_account-vpa :
    (k : String) (a : Account) (as' : List Account) → find_account k as' ≡ some a → a.vpa ≡ k
find_account-vpa k a [] h = cc
find_account-vpa k a (b ∷ as') h = ground (arith, eq_iff b.vpa k, find_account-vpa k a as')

pub find_account-upsert :
    (k : String) (b : Account) (as' : List Account)
    → find_account k (upsert b as') ≡ (if str_eq b.vpa k then some b else find_account k as')
find_account-upsert k b [] = refl
find_account-upsert k b (a ∷ as') =
    ground (arith, eq_iff a.vpa b.vpa, eq_iff a.vpa k, eq_iff b.vpa k, find_account-upsert k b as')

pub total-upsert :
    (a b : Account) (as' : List Account)
    → find_account b.vpa as' ≡ some a
    → total (upsert b as') +ℤ a.balance ≡ total as' +ℤ b.balance
total-upsert a b [] h = cc
total-upsert a b (x ∷ as') h = grind (int_laws, total-upsert a b as')

pub upsert-IsLedger :
    (b : Account) (as' : List Account) → IsLedger as' → pos 0 ≤ℤ b.balance → IsLedger (upsert b as')
upsert-IsLedger b [] h p = (refl, p, tt)
upsert-IsLedger b (a ∷ as') h p = ground (
  arith,
  eq_iff a.vpa b.vpa,
  eq_iff b.vpa a.vpa,
  find_account-upsert a.vpa b as',
  upsert-IsLedger b as' h.2 p,
)

pub total_nonneg : (as' : List Account) → IsLedger as' → pos 0 ≤ℤ total as'
total_nonneg [] h = omega arith
total_nonneg (a ∷ as') h = omega (int_laws, total_nonneg as' h.2)

pub find_account_nonneg :
    (k : String) (a : Account) (as' : List Account)
    → IsLedger as'
    → find_account k as' ≡ some a
    → pos 0 ≤ℤ a.balance
find_account_nonneg k a [] h e = cc
find_account_nonneg k a (b ∷ as') h e = ground (arith, find_account_nonneg k a as' h.2)

-- What one account holds is part of the whole; so is what two accounts hold.
pub balance-le-total :
    (k : String) (a : Account) (as' : List Account)
    → IsLedger as'
    → find_account k as' ≡ some a
    → a.balance ≤ℤ total as'
balance-le-total k a [] h e = cc
balance-le-total k a (b ∷ as') h e =
    grind (int_laws, balance-le-total k a as' h.2, total_nonneg as' h.2)

pub balances-le-total :
    (j k : String) (a b : Account) (as' : List Account)
    → IsLedger as'
    → j ≢ k
    → find_account j as' ≡ some a
    → find_account k as' ≡ some b
    → a.balance +ℤ b.balance ≤ℤ total as'
balances-le-total j k a b [] h n e f = cc
balances-le-total j k a b (x ∷ as') h n e f = grind (
  int_laws,
  eq_iff x.vpa j,
  eq_iff x.vpa k,
  balances-le-total j k a b as' h.2 n,
  balance-le-total j a as' h.2,
  balance-le-total k b as' h.2,
)
