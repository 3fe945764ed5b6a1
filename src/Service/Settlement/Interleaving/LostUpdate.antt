-- ===== src/Service/Settlement/Interleaving/LostUpdate.antt =====
-- What the schedule loses: the debit that was written first.
use upi_w_o_internet.Common.{
  suc, ◌<◌, String, ◌≡◌, ◌≢◌, refl, sym, subst, ◌∙◌, false, some, List, arith,
}
use upi_w_o_internet.Common.Int.{ℤ, pos, ◌+ℤ◌, ◌≤ℤ◌, ◌<ℤ◌, int_laws, parts_of_eq, half64, <ℤ→leb_ℤ}
use upi_w_o_internet.Common.Result.{ok, throw}
use upi_w_o_internet.Common.Text.{c_str, str_eq_refl, ≢→str_eq}
use upi_w_o_internet.Model.Records.{Account, settled}
use upi_w_o_internet.Model.Sqlite.{Sqlite}
use upi_w_o_internet.Model.Tables.{Store, find_account, upsert, has_hash, append_row}
use upi_w_o_internet.Model.Documented.{IsSqlite}
use upi_w_o_internet.Model.Views.{Yields, stored_account, stored_row}
use upi_w_o_internet.Model.Ledger.{total, IsLedger, find_account-upsert}
use upi_w_o_internet.Service.Settlement.{
  Request, new_transaction, debit, credit, read_accounts, settle_locked,
}
use upi_w_o_internet.Service.Settlement.Spec.{transferred}
use upi_w_o_internet.Service.Settlement.Refinement.{
  at_rest, accounts_spec, read_accounts-Yields, settle_locked-Yields,
}
use upi_w_o_internet.Service.Settlement.Conservation.{
  Fits, sender_key, receiver_key, debit-balance, credit-balance, sum_fits, transferred-total,
  two_writes-total,
}
use upi_w_o_internet.Service.Settlement.Once.{has_hash-append}
use upi_w_o_internet.Service.Settlement.Interleaving.{overlapped}

-- Two payments of `x` and `y` from one account `a` to two others, both written from what was read
-- before.
module _ (x y : ℤ) (a b c : Account) (as' : List Account) (i j k : String) (ledger : IsLedger as')
    (fits : Fits as') (ij : c_str i ≢ c_str j) (ik : c_str i ≢ c_str k) (jk : c_str j ≢ c_str k)
    (px : pos 0 <ℤ x) (py : pos 0 <ℤ y) (cx : x ≤ℤ a.balance) (cy : y ≤ℤ a.balance)
    (ea : find_account (c_str i) as' ≡ some a) (eb : find_account (c_str j) as' ≡ some b)
    (ec : find_account (c_str k) as' ≡ some c) where
  abbrev once : List Account
  once = transferred x a b as'

  debited : find_account (c_str i) once ≡ some (stored_account (debit x a))
  debited =
      rw
        (
          find_account-upsert (c_str i) (stored_account (credit x b))
              (upsert (stored_account (debit x a)) as'),
          find_account-upsert (c_str i) (stored_account (debit x a)) as',
          receiver_key x a b as' i j ledger px cx ea eb,
          sender_key x a b as' i j ledger px cx ea eb,
          ≢→str_eq (c_str j) (c_str i) (λ e. ij (sym e)),
          str_eq_refl (c_str i),
        )
        refl

  untouched : find_account (c_str k) once ≡ some c
  untouched =
      rw
        (
          find_account-upsert (c_str k) (stored_account (credit x b))
              (upsert (stored_account (debit x a)) as'),
          find_account-upsert (c_str k) (stored_account (debit x a)) as',
          receiver_key x a b as' i j ledger px cx ea eb,
          sender_key x a b as' i j ledger px cx ea eb,
          ≢→str_eq (c_str j) (c_str k) jk,
          ≢→str_eq (c_str i) (c_str k) ik,
        )
        ec

  -- The first debit is overwritten.
  total-overwritten : total (transferred y a c once) ≡ total as' +ℤ x
  total-overwritten =
      let key = sender_key y a c as' i k ledger py cy ea ec in
      let key' = receiver_key y a c as' i k ledger py cy ea ec in
      omega (
        int_laws,
        parts_of_eq _ _ (
            two_writes-total (stored_account (debit x a)) c (stored_account (debit y a))
              (stored_account (credit y c)) once (λ e. ik (sym key ∙ e ∙ key'))
              (subst (λ v. find_account v once ≡ some (stored_account (debit x a))) (sym key)
                debited)
              (subst (λ v. find_account v once ≡ some c) (sym key') untouched)),
        parts_of_eq _ _ (transferred-total x a b as' i j ledger px cx ea eb ij fits),
        parts_of_eq _ _ (debit-balance x a b as' i j ledger px cx ea eb fits),
        parts_of_eq _ _ (debit-balance y a c as' i k ledger py cy ea ec fits),
        parts_of_eq _ _ (
            credit-balance y a c as' i k ledger py cy ea ec
              (sum_fits y a c as' i k ledger py cy ea ec ik fits)),
      )

accounts_spec_ok :
    (q : Sqlite) (laws : IsSqlite q) (r : Request) (s : Store) (a b : Account)
    → find_account (c_str r.instruction.sender_vpa) s.accounts ≡ some a
    → find_account (c_str r.instruction.receiver_vpa) s.accounts ≡ some b
    → pos 0 <ℤ r.instruction.amount
    → accounts_spec q laws r s ≡ ok (a, b)
accounts_spec_ok q laws r s a b ea eb p =
    rw (ea, accounts_spec)
      (rw (eb, accounts_spec) (rw (<ℤ→leb_ℤ r.instruction.amount (pos 0) p) refl))

module _ (q : Sqlite) (laws : IsSqlite q) (r₁ r₂ : Request) (at₁ at₂ : ℤ) where
  open q use {Db}
  open laws use {view}

  overlapped-Yields :
      (s : Store) (d : Db) (a b c : Account)
      → view d ≡ at_rest s
      → accounts_spec q laws r₁ s ≡ ok (a, b)
      → accounts_spec q laws r₂ s ≡ ok (a, c)
      → has_hash (c_str r₁.packet_hash) s.transactions ≡ false
      → has_hash (c_str r₂.packet_hash) s.transactions ≡ false
      → c_str r₁.packet_hash ≢ c_str r₂.packet_hash
      → suc (suc s.sequence) < half64
      → let x = r₁.instruction.amount in
        let y = r₂.instruction.amount in
        Yields q laws
          (overlapped q r₁ r₂ at₁ at₂ d)
          (ok (
            record (new_transaction r₁ at₁ settled) { id = pos (suc s.sequence) },
            record (new_transaction r₂ at₂ settled) { id = pos (suc (suc s.sequence)) },
          ))
          (at_rest (
            append_row
              (stored_row (new_transaction r₂ at₂ settled))
              (record (append_row (stored_row (new_transaction r₁ at₁ settled)) s) {
                accounts = transferred y a c (transferred x a b s.accounts);
              })))
  unfolding overlapped
  overlapped-Yields s d a b c e f₁ f₂ new₁ new₂ n room =
      let x = r₁.instruction.amount in
      let y = r₂.instruction.amount in
      let p₁ = rw f₁ at (read_accounts-Yields q laws r₁ s d e) in
      let d₁ = (read_accounts q r₁ d).1 in
      let p₂ = rw f₂ at (read_accounts-Yields q laws r₂ s d₁ p₁.1) in
      let d₂ = (read_accounts q r₂ d₁).1 in
      let p₃ =
        settle_locked-Yields q laws r₁ (debit x a) (credit x b) at₁ throw s d₂ p₂.1 new₁
          (omega arith) in
      let d₃ = (settle_locked q r₁ (debit x a) (credit x b) at₁ throw d₂).1 in
      let p₄ =
        settle_locked-Yields q laws r₂ (debit y a) (credit y c) at₂ throw _ d₃ p₃.1
          (rw
            (
              has_hash-append (c_str r₂.packet_hash) s.transactions
                  (record (stored_row (new_transaction r₁ at₁ settled)) { id = suc s.sequence }),
              new₂,
            )
            (≢→str_eq (c_str r₁.packet_hash) (c_str r₂.packet_hash) n))
          room in
      ground arith

  -- When two first attempts with new hashes both read the account of one sender before either
  -- writes, and it covers each of the two amounts, then both payments to two other accounts are
  -- reported as settled, and the balances together have grown by the amount of the one written
  -- first; if the balances are in range and two ids are left.
  pub overlapped-loses :
      (s : Store) (d : Db) (a b c : Account)
      → view d ≡ at_rest s
      → IsLedger s.accounts
      → Fits s.accounts
      → c_str r₂.instruction.sender_vpa ≡ c_str r₁.instruction.sender_vpa
      → c_str r₁.instruction.sender_vpa ≢ c_str r₁.instruction.receiver_vpa
      → c_str r₁.instruction.sender_vpa ≢ c_str r₂.instruction.receiver_vpa
      → c_str r₁.instruction.receiver_vpa ≢ c_str r₂.instruction.receiver_vpa
      → find_account (c_str r₁.instruction.sender_vpa) s.accounts ≡ some a
      → find_account (c_str r₁.instruction.receiver_vpa) s.accounts ≡ some b
      → find_account (c_str r₂.instruction.receiver_vpa) s.accounts ≡ some c
      → pos 0 <ℤ r₁.instruction.amount
      → pos 0 <ℤ r₂.instruction.amount
      → r₁.instruction.amount ≤ℤ a.balance
      → r₂.instruction.amount ≤ℤ a.balance
      → has_hash (c_str r₁.packet_hash) s.transactions ≡ false
      → has_hash (c_str r₂.packet_hash) s.transactions ≡ false
      → c_str r₁.packet_hash ≢ c_str r₂.packet_hash
      → suc (suc s.sequence) < half64
      → let (result, end) = overlapped q r₁ r₂ at₁ at₂ d in
        (result
          ≡ ok (
            record (new_transaction r₁ at₁ settled) { id = pos (suc s.sequence) },
            record (new_transaction r₂ at₂ settled) { id = pos (suc (suc s.sequence)) },
          ))
        × (total (view end).current.accounts ≡ total s.accounts +ℤ r₁.instruction.amount)
  overlapped-loses s d a b c e ledger fits same ij ik jk ea eb ec px py cx cy new₁ new₂ n room =
      let i = r₁.instruction in
      let j = r₂.instruction in
      let p =
        overlapped-Yields s d a b c e (accounts_spec_ok q laws r₁ s a b ea eb px)
          (accounts_spec_ok q laws r₂ s a c (rw same ea) ec py) new₁ new₂ n room in
      (
        p.0,
        rw p.1 (
            total-overwritten i.amount j.amount a b c s.accounts i.sender_vpa i.receiver_vpa
              j.receiver_vpa ledger fits ij ik jk px py cx cy ea eb ec),
      )
