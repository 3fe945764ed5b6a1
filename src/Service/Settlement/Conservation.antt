-- ===== src/Service/Settlement/Conservation.antt =====
-- Double entry: what a settlement does to the balances.
use upi_w_o_internet.Common.{
  ℕ, String, ◌≡◌, refl, sym, ap, ◌∙◌, ◌≢◌, false, some, List, if◌then◌else◌,
}
use upi_w_o_internet.Common.Int.{
  ℤ, pos, ◌+ℤ◌, ◌-ℤ◌, ◌≤ℤ◌, ◌<ℤ◌, int_laws, parts_of_eq, half64, sub64-eq, add64-eq,
}
use upi_w_o_internet.Common.Text.{c_str, c_str_idem, str_eq, str_eq_refl, ≢→str_eq}
use upi_w_o_internet.Model.Records.{Account, settled, rejected}
use upi_w_o_internet.Model.Sqlite.{Sqlite}
use upi_w_o_internet.Model.Tables.{Store, find_account, upsert, has_hash}
use upi_w_o_internet.Model.Documented.{IsSqlite}
use upi_w_o_internet.Model.Views.{stored_account}
use upi_w_o_internet.Model.Ledger.{
  total, IsLedger, find_account-vpa, find_account-upsert, total-upsert, upsert-IsLedger,
  find_account_nonneg, balance-le-total, balances-le-total,
}
use upi_w_o_internet.Service.Settlement.{Request, debit, credit, settle}
use upi_w_o_internet.Service.Settlement.Spec.{
  transferred, settle_spec, settle_spec-cases, post_keeps, settle_spec-covered,
}
use upi_w_o_internet.Service.Settlement.Refinement.{at_rest, HasRoom, settle-refines}

-- The money of the ledger fits an `int64_t`.
abbrev pub Fits : List Account → Type 0
Fits as' = total as' <ℤ pos half64

-- Two rows are written, one after the other.
pub two_writes-total :
    (a b a' b' : Account) (as' : List Account)
    → a'.vpa ≢ b'.vpa
    → find_account a'.vpa as' ≡ some a
    → find_account b'.vpa as' ≡ some b
    → total (upsert b' (upsert a' as')) +ℤ a.balance +ℤ b.balance
      ≡ total as' +ℤ a'.balance +ℤ b'.balance
two_writes-total a b a' b' as' n ea eb =
    let p₁ = total-upsert a a' as' ea in
    let found : find_account b'.vpa (upsert a' as') ≡ some b =
      rw (find_account-upsert b'.vpa a' as', ≢→str_eq a'.vpa b'.vpa n) eb in
    omega (int_laws, parts_of_eq _ _ p₁, parts_of_eq _ _ (total-upsert b b' (upsert a' as') found))

one_write-total :
    (a a' b' : Account) (as' : List Account)
    → a'.vpa ≡ b'.vpa
    → find_account a'.vpa as' ≡ some a
    → total (upsert b' (upsert a' as')) +ℤ a.balance ≡ total as' +ℤ b'.balance
one_write-total a a' b' as' same ea =
    let p₁ = total-upsert a a' as' ea in
    let found : find_account b'.vpa (upsert a' as') ≡ some a' =
      rw (find_account-upsert b'.vpa a' as', same, str_eq_refl b'.vpa) refl in
    omega (int_laws, parts_of_eq _ _ p₁, parts_of_eq _ _ (total-upsert a' b' (upsert a' as') found))

-- The hypotheses of a settlement that passes its checks, on texts as C takes them.
module _ (amount : ℤ) (sender receiver : Account) (as' : List Account) (j k : String)
    (ledger : IsLedger as') (p : pos 0 <ℤ amount) (covered : amount ≤ℤ sender.balance)
    (es : find_account (c_str j) as' ≡ some sender)
    (er : find_account (c_str k) as' ≡ some receiver) where
  pub sender_key : c_str sender.vpa ≡ c_str j
  sender_key = rw (find_account-vpa (c_str j) sender as' es) (c_str_idem j)

  pub receiver_key : c_str receiver.vpa ≡ c_str k
  receiver_key = rw (find_account-vpa (c_str k) receiver as' er) (c_str_idem k)

  pub debit-balance : Fits as' → (debit amount sender).balance ≡ sender.balance -ℤ amount
  debit-balance fits =
      sub64-eq sender.balance amount
        (omega (int_laws, balance-le-total (c_str j) sender as' ledger es))

  -- The receiver's new balance is in range if the sum is.
  pub credit-balance :
      receiver.balance +ℤ amount <ℤ pos half64
      → (credit amount receiver).balance ≡ receiver.balance +ℤ amount
  credit-balance fits =
      add64-eq receiver.balance amount
        (omega (int_laws, find_account_nonneg (c_str k) receiver as' ledger er))

  transferred-IsLedger :
      Fits as'
      → receiver.balance +ℤ amount <ℤ pos half64
      → IsLedger (transferred amount sender receiver as')
  transferred-IsLedger fits room =
      upsert-IsLedger (stored_account (credit amount receiver)) _
        (upsert-IsLedger (stored_account (debit amount sender)) as' ledger
          (rw (debit-balance fits) (omega int_laws)))
        (rw (credit-balance room)
          (omega (int_laws, find_account_nonneg (c_str k) receiver as' ledger er)))

  pub sum_fits : c_str j ≢ c_str k → Fits as' → receiver.balance +ℤ amount <ℤ pos half64
  sum_fits n fits =
      omega (int_laws, balances-le-total (c_str j) (c_str k) sender receiver as' ledger n es er)

  -- Between two accounts the sum stays; the balances that were read are those that were there.
  pub transferred-total :
      c_str j ≢ c_str k → Fits as' → total (transferred amount sender receiver as') ≡ total as'
  transferred-total n fits =
      let d = debit-balance fits in
      let c = credit-balance (sum_fits n fits) in
      omega (
        int_laws,
        parts_of_eq _ _ (
            two_writes-total sender receiver (stored_account (debit amount sender))
              (stored_account (credit amount receiver)) as'
              (λ e. n (sym sender_key ∙ e ∙ receiver_key)) (rw sender_key es) (rw receiver_key er)),
        parts_of_eq _ _ d,
        parts_of_eq _ _ c,
      )

  -- From an account to itself the second write wins, and the amount is made up.
  transferred-total_self :
      c_str j ≡ c_str k
      → Fits as'
      → receiver.balance +ℤ amount <ℤ pos half64
      → total (transferred amount sender receiver as') ≡ total as' +ℤ amount
  transferred-total_self same fits room =
      let c = credit-balance room in
      let one : sender ≡ receiver = cc in
      omega (
        int_laws,
        parts_of_eq _ _ (
            one_write-total sender (stored_account (debit amount sender))
              (stored_account (credit amount receiver)) as' (sender_key ∙ same ∙ sym receiver_key)
              (rw sender_key es)),
        parts_of_eq _ _ (ap (λ a. a.balance) one),
        parts_of_eq _ _ c,
      )

-- The balances after a settlement, whatever its branch.
module _ (r : Request) (at : ℤ) (s : Store) (ledger : IsLedger s.accounts)
    (fits : Fits s.accounts) where
  abbrev pub Kept : Store → Type 0
  Kept s' = (total s'.accounts ≡ total s.accounts) × IsLedger s'.accounts

  pub settle_spec-total :
      c_str r.instruction.sender_vpa ≢ c_str r.instruction.receiver_vpa
      → let s' = (settle_spec r at s).1 in
        (total s'.accounts ≡ total s.accounts) × IsLedger s'.accounts
  settle_spec-total n =
      settle_spec-cases r at s (λ end. Kept end.1) (λ e. (refl, ledger))
        (post_keeps Kept r at rejected s.accounts s (refl, ledger) (λ new. (refl, ledger)))
        λ sender receiver es er p c.
          let amount = r.instruction.amount in
          post_keeps Kept r at settled (transferred amount sender receiver s.accounts) s
            (refl, ledger)
            λ new. (
              transferred-total amount sender receiver s.accounts _ _ ledger p c es er n fits,
              transferred-IsLedger amount sender receiver s.accounts _ _ ledger p c es er fits
                  (sum_fits amount sender receiver s.accounts _ _ ledger p c es er n fits),
            )

  -- A covered payment with a new hash, as settle_spec has it.
  pub settle_spec-moves :
      (a b : Account)
      → c_str r.instruction.sender_vpa ≢ c_str r.instruction.receiver_vpa
      → find_account (c_str r.instruction.sender_vpa) s.accounts ≡ some a
      → find_account (c_str r.instruction.receiver_vpa) s.accounts ≡ some b
      → pos 0 <ℤ r.instruction.amount
      → r.instruction.amount ≤ℤ a.balance
      → has_hash (c_str r.packet_hash) s.transactions ≡ false
      → (k : String)
      → let amount = r.instruction.amount in
        find_account k (settle_spec r at s).1.accounts ≡ (
          if str_eq (c_str r.instruction.receiver_vpa) k
          then some (stored_account (record b { balance = b.balance +ℤ amount }))
          else if str_eq (c_str r.instruction.sender_vpa) k
          then some (stored_account (record a { balance = a.balance -ℤ amount }))
          else find_account k s.accounts)
  settle_spec-moves a b n es er p covered new k =
      let amount = r.instruction.amount in
      rw (settle_spec-covered r at s a b es er p covered new) (
        rw
          (
            find_account-upsert k (stored_account (credit amount b))
                (upsert (stored_account (debit amount a)) s.accounts),
            find_account-upsert k (stored_account (debit amount a)) s.accounts,
            sender_key amount a b s.accounts _ _ ledger p covered es er,
            receiver_key amount a b s.accounts _ _ ledger p covered es er,
            debit-balance amount a b s.accounts _ _ ledger p covered es er fits,
            credit-balance amount a b s.accounts _ _ ledger p covered es er
                (sum_fits amount a b s.accounts _ _ ledger p covered es er n fits),
          )
          refl)

module _ (q : Sqlite) (laws : IsSqlite q) where
  open q use {Db}
  open laws use {view}

  -- Whatever `settle` does between two different accounts, by settling, rejecting or throwing, no
  -- money is made or lost, no balance becomes negative and no account is doubled: if no transaction
  -- is open, an id is left, and the ledger is sound and its sum fits 64 bits.
  pub settle-total :
      (r : Request) (now : ℕ → ℤ) (s : Store) (d : Db)
      → view d ≡ at_rest s
      → HasRoom s
      → IsLedger s.accounts
      → Fits s.accounts
      → c_str r.instruction.sender_vpa ≢ c_str r.instruction.receiver_vpa
      → let s' = (view (settle q r now d).1).current in
        (total s'.accounts ≡ total s.accounts) × IsLedger s'.accounts
  settle-total r now s d e room ledger fits n =
      rw (settle-refines q laws r now s d e room).1 (settle_spec-total r (now 1) s ledger fits n)

  -- A covered payment of a positive amount from an account to itself, with a new hash, adds the
  -- amount to the sum of the ledger: the two rows that are written are the same row.
  pub settle-total_self :
      (r : Request) (now : ℕ → ℤ) (s : Store) (d : Db) (a : Account)
      → view d ≡ at_rest s
      → HasRoom s
      → IsLedger s.accounts
      → Fits s.accounts
      → c_str r.instruction.sender_vpa ≡ c_str r.instruction.receiver_vpa
      → find_account (c_str r.instruction.sender_vpa) s.accounts ≡ some a
      → pos 0 <ℤ r.instruction.amount
      → r.instruction.amount ≤ℤ a.balance
      → a.balance +ℤ r.instruction.amount <ℤ pos half64
      → has_hash (c_str r.packet_hash) s.transactions ≡ false
      → total (view (settle q r now d).1).current.accounts
        ≡ total s.accounts +ℤ r.instruction.amount
  settle-total_self r now s d a e room ledger fits same es p covered bound new =
      rw (settle-refines q laws r now s d e room).1 (
        rw (settle_spec-covered r (now 1) s a a es (rw same at es) p covered new) (
          transferred-total_self r.instruction.amount a a s.accounts _ _ ledger p covered es
            (rw same at es) same fits bound))

  -- A covered payment between two different accounts moves the amount from the one to the other
  -- and leaves every other account as it was.
  pub settle-moves :
      (r : Request) (now : ℕ → ℤ) (s : Store) (d : Db) (a b : Account)
      → view d ≡ at_rest s
      → HasRoom s
      → IsLedger s.accounts
      → Fits s.accounts
      → c_str r.instruction.sender_vpa ≢ c_str r.instruction.receiver_vpa
      → find_account (c_str r.instruction.sender_vpa) s.accounts ≡ some a
      → find_account (c_str r.instruction.receiver_vpa) s.accounts ≡ some b
      → pos 0 <ℤ r.instruction.amount
      → r.instruction.amount ≤ℤ a.balance
      → has_hash (c_str r.packet_hash) s.transactions ≡ false
      → (k : String)
      → let amount = r.instruction.amount in
        find_account k (view (settle q r now d).1).current.accounts ≡ (
          if str_eq (c_str r.instruction.receiver_vpa) k
          then some (stored_account (record b { balance = b.balance +ℤ amount }))
          else if str_eq (c_str r.instruction.sender_vpa) k
          then some (stored_account (record a { balance = a.balance -ℤ amount }))
          else find_account k s.accounts)
  settle-moves r now s d a b e room ledger fits n es er p covered new k =
      rw (settle-refines q laws r now s d e room).1
        (settle_spec-moves r (now 1) s ledger fits a b n es er p covered new k)
