-- ===== src/Service/Settlement/Spec.antt =====
-- What `SettlementService::settle` promises: one step on the contents of the tables, with no SQL,
-- no transaction and no retry.
use Prim.Native.String.{◌++◌ as ◌<>◌}
use upi_w_o_internet.Common.{
  suc, false, ◌≡◌, refl, inl, inr, Bool-cases, Option-cases, none, some, List, if◌then◌else◌,
}
use upi_w_o_internet.Common.Int.{
  ℤ, pos, leb_ℤ, ltb_ℤ, ◌≤ℤ◌, ◌<ℤ◌, ltb_ℤ→≤ℤ, leb_ℤ→<ℤ, <ℤ→leb_ℤ, ≤ℤ→ltb_ℤ,
}
use upi_w_o_internet.Common.Result.{Result, ok, err, Exception, invalid_argument, runtime_error}
use upi_w_o_internet.Common.Text.{c_str}
use upi_w_o_internet.Model.Records.{Account, Transaction, Status, settled, rejected}
use upi_w_o_internet.Model.Tables.{Store, find_account, upsert, has_hash, append_row}
use upi_w_o_internet.Model.Views.{stored_account, stored_row, save_failure}
use upi_w_o_internet.Service.Settlement.{Request, new_transaction, debit, credit}

-- A row is added under the next id, together with the new balances, unless its hash is there.
unfoldable pub post : Request → ℤ → Status → List Account → Store → Result Transaction × Store
post r at status accounts s =
    let tx = new_transaction r at status in
    if has_hash (c_str r.packet_hash) s.transactions
    then (err (runtime_error save_failure), s)
    else (
      ok (record tx { id = pos (suc s.sequence) }),
      append_row (stored_row tx) (record s { accounts = accounts }),
    )

abbrev pub transferred : ℤ → Account → Account → List Account → List Account
transferred amount sender receiver accounts =
    upsert (stored_account (credit amount receiver))
      (upsert (stored_account (debit amount sender)) accounts)

-- Between two known accounts.
unfoldable pub transfer_spec : Request → ℤ → Account → Account → Store → Result Transaction × Store
transfer_spec r at sender receiver s =
    let amount = r.instruction.amount in
    if leb_ℤ amount (pos 0)
    then (err (invalid_argument "Amount must be positive"), s)
    else if ltb_ℤ sender.balance amount
    then post r at rejected s.accounts s
    else post r at settled (transferred amount sender receiver s.accounts) s

unfoldable pub settle_spec : Request → ℤ → Store → Result Transaction × Store
settle_spec r at s =
    let i = r.instruction in
    elim (find_account (c_str i.sender_vpa) s.accounts) [
      | none ↦ (err (invalid_argument ("Unknown sender VPA: " <> i.sender_vpa)), s)
      | some sender ↦ elim (find_account (c_str i.receiver_vpa) s.accounts) [
        | none ↦ (err (invalid_argument ("Unknown receiver VPA: " <> i.receiver_vpa)), s)
        | some receiver ↦ transfer_spec r at sender receiver s
      ]
    ]

-- To prove something of every outcome.
pub post_keeps {ℓ} :
    (P : Store → Type ℓ) (r : Request) (at : ℤ) (status : Status) (accounts : List Account)
    (s : Store)
    → P s
    → (has_hash (c_str r.packet_hash) s.transactions ≡ false
        → P (
            append_row
              (stored_row (new_transaction r at status))
              (record s { accounts = accounts })))
    → P (post r at status accounts s).1
unfolding post
post_keeps P r at status accounts s kept posted =
    elim (Bool-cases (has_hash (c_str r.packet_hash) s.transactions)) [
      | inl old ↦ rw old kept
      | inr new ↦ rw new (posted new)
    ]

module _ {ℓ} (r : Request) (at : ℤ) (s : Store) (P : Result Transaction × Store → Type ℓ) where
  transfer_spec-cases :
      (sender receiver : Account)
      → ((e : Exception) → P (err e, s))
      → P (post r at rejected s.accounts s)
      → (pos 0 <ℤ r.instruction.amount
          → r.instruction.amount ≤ℤ sender.balance
          → P (post r at settled (transferred r.instruction.amount sender receiver s.accounts) s))
      → P (transfer_spec r at sender receiver s)
  unfolding transfer_spec
  transfer_spec-cases sender receiver thrown short paid =
      elim (Bool-cases (leb_ℤ r.instruction.amount (pos 0))) [
        | inl bad ↦ rw bad (thrown _)
        | inr good ↦ rw good (elim (Bool-cases (ltb_ℤ sender.balance r.instruction.amount)) [
          | inl low ↦ rw low short
          | inr covered ↦ rw covered (
              paid (leb_ℤ→<ℤ r.instruction.amount (pos 0) good)
                (ltb_ℤ→≤ℤ sender.balance r.instruction.amount covered))
        ])
      ]

  pub settle_spec-cases :
      ((e : Exception) → P (err e, s))
      → P (post r at rejected s.accounts s)
      → ((sender receiver : Account)
          → find_account (c_str r.instruction.sender_vpa) s.accounts ≡ some sender
          → find_account (c_str r.instruction.receiver_vpa) s.accounts ≡ some receiver
          → pos 0 <ℤ r.instruction.amount
          → r.instruction.amount ≤ℤ sender.balance
          → P (post r at settled (transferred r.instruction.amount sender receiver s.accounts) s))
      → P (settle_spec r at s)
  unfolding settle_spec
  settle_spec-cases thrown short paid =
      elim (Option-cases (find_account (c_str r.instruction.sender_vpa) s.accounts)) [
        | inl missing ↦ rw (missing, settle_spec) (thrown _)
        | inr (sender, es) ↦
            elim (Option-cases (find_account (c_str r.instruction.receiver_vpa) s.accounts)) [
              | inl missing ↦ rw (es, settle_spec) (rw (missing, settle_spec) (thrown _))
              | inr (receiver, er) ↦
                  rw (es, settle_spec)
                    (rw (er, settle_spec)
                      (transfer_spec-cases sender receiver thrown short
                        (paid sender receiver es er)))
            ]
      ]

pub settle_spec-covered :
    (r : Request) (at : ℤ) (s : Store) (sender receiver : Account)
    → find_account (c_str r.instruction.sender_vpa) s.accounts ≡ some sender
    → find_account (c_str r.instruction.receiver_vpa) s.accounts ≡ some receiver
    → pos 0 <ℤ r.instruction.amount
    → r.instruction.amount ≤ℤ sender.balance
    → has_hash (c_str r.packet_hash) s.transactions ≡ false
    → let tx = new_transaction r at settled in
      settle_spec r at s ≡ (
        ok (record tx { id = pos (suc s.sequence) }),
        append_row
            (stored_row tx)
            (record s { accounts = transferred r.instruction.amount sender receiver s.accounts }),
      )
unfolding settle_spec transfer_spec post
settle_spec-covered r at s sender receiver es er p covered new =
    rw (es, settle_spec)
      (rw (er, settle_spec)
        (rw (<ℤ→leb_ℤ r.instruction.amount (pos 0) p)
          (rw (≤ℤ→ltb_ℤ sender.balance r.instruction.amount covered) (rw new refl))))
