-- ===== src/Service/Settlement/Refinement.antt =====
-- `settle` implements its specification, on every branch: the SQL transaction commits what the
-- specification says, or rolls everything back.
use Prim.Native.String.{◌++◌ as ◌<>◌}
use upi_w_o_internet.Common.{
  ℕ, zero, suc, ◌+◌, ◌≡◌, refl, true, false, none, some, inl, inr, arith, Bool-cases, if◌then◌else◌,
  ◌==◌,
}
use upi_w_o_internet.Common.Int.{ℤ, pos, leb_ℤ, ltb_ℤ}
use upi_w_o_internet.Common.Result.{
  Result, Result-cases, Action, ok, err, Exception, invalid_argument, runtime_error, throw, ◌>>=◌,
}
use upi_w_o_internet.Common.Text.{c_str}
use upi_w_o_internet.Model.Records.{Account, Transaction, settled, rejected}
use upi_w_o_internet.Model.Sqlite.{Sqlite}
use upi_w_o_internet.Model.Tables.{Store, find_account, has_hash}
use upi_w_o_internet.Model.Documented.{IsSqlite}
use upi_w_o_internet.Model.Views.{
  Yields, save_failure, find_by_id-Yields, save_tx-Yields, save_tx-Yields_err,
}
use upi_w_o_internet.Service.Settlement.{
  Request, new_transaction, debit, credit, read_accounts, record_rejected, settle_locked,
  settle_attempts, settle,
}
use upi_w_o_internet.Service.Settlement.Spec.{post, transferred, transfer_spec, settle_spec}
use upi_w_o_internet.Model.AccountRepository
pub use upi_w_o_internet.Service.Settlement.Locking.{
  at_rest, HasRoom, settle_locked-Yields, settle_locked-Yields_err,
}

module _ (q : Sqlite) (laws : IsSqlite q) where
  open q use {Db}
  open laws use {view}

  module _ (r : Request) where
    abbrev pub accounts_spec : Store → Result (Account × Account)
    accounts_spec s = elim (find_account (c_str r.instruction.sender_vpa) s.accounts) [
      | none ↦ err (invalid_argument ("Unknown sender VPA: " <> r.instruction.sender_vpa))
      | some sender ↦ elim (find_account (c_str r.instruction.receiver_vpa) s.accounts) [
        | none ↦ err (invalid_argument ("Unknown receiver VPA: " <> r.instruction.receiver_vpa))
        | some receiver ↦
            if leb_ℤ r.instruction.amount (pos 0)
            then err (invalid_argument "Amount must be positive")
            else ok (sender, receiver)
      ]
    ]

    pub read_accounts-Yields :
        (s : Store) (d : Db)
        → view d ≡ at_rest s
        → Yields q laws (read_accounts q r d) (accounts_spec s) (at_rest s)
    unfolding read_accounts
    read_accounts-Yields s d e =
        let p₁ = rw e at (find_by_id-Yields q laws r.instruction.sender_vpa d) in
        let d₁ = (AccountRepository.find_by_id q r.instruction.sender_vpa d).1 in
        let p₂ = rw p₁.1 at (find_by_id-Yields q laws r.instruction.receiver_vpa d₁) in ground arith

    pub record_rejected-Yields :
        (at : ℤ) (s : Store) (d : Db)
        → view d ≡ at_rest s
        → HasRoom s
        → let end = post r at rejected s.accounts s in
          Yields q laws (record_rejected q r at d) end.0 (at_rest end.1)
    unfolding record_rejected post
    record_rejected-Yields at s d e room =
        let tx = new_transaction r at rejected in
        elim (Bool-cases (has_hash (c_str r.packet_hash) s.transactions)) [
          | inl old ↦ let p = rw e at (save_tx-Yields_err q laws tx d (rw e old)) in ground arith
          | inr new ↦
              let p = rw e at (save_tx-Yields q laws tx d (rw e new) (rw e room)) in ground arith
        ]

    module _ (now : ℕ → ℤ) (s : Store) where
      -- The handler of the round `attempt`, with `left` rounds after it.
      abbrev handler : ℕ → ℕ → Exception → Action Db Transaction
      handler left attempt e =
          if attempt == 3 then throw e else settle_attempts q r now left (suc attempt)

      -- A round that passes the checks is the section under the lock.
      round-locked :
          (sender receiver : Account) (left attempt : ℕ) (d : Db)
          → (read_accounts q r d).0 ≡ ok (sender, receiver)
          → ltb_ℤ sender.balance r.instruction.amount ≡ false
          → settle_attempts q r now (suc left) attempt d
            ≡ settle_locked q r
                (debit r.instruction.amount sender)
                (credit r.instruction.amount receiver)
                (now attempt)
                (handler left attempt)
                (read_accounts q r d).1
      unfolding settle_attempts
      round-locked sender receiver left attempt d found covered =
          rw (found, ◌>>=◌) (rw covered refl)

      -- Each attempt with a known hash rolls back, and the last one gives up.
      retries-Yields :
          (sender receiver : Account) (left attempt : ℕ) (d : Db)
          → attempt + left ≡ 3
          → accounts_spec s ≡ ok (sender, receiver)
          → ltb_ℤ sender.balance r.instruction.amount ≡ false
          → view d ≡ at_rest s
          → has_hash (c_str r.packet_hash) s.transactions ≡ true
          → Yields q laws
              (settle_attempts q r now (suc left) attempt d)
              (err (runtime_error save_failure))
              (at_rest s)
      retries-Yields sender receiver zero attempt d n found covered e old =
          let p = rw found at (read_accounts-Yields s d e) in
          rw (round-locked sender receiver zero attempt d p.0 covered) (
            settle_locked-Yields_err q laws r _ _ (now attempt) (handler zero attempt) s
              (read_accounts q r d).1 p.1 old λ d' e'. ground arith)
      retries-Yields sender receiver (suc left) attempt d n found covered e old =
          let p = rw found at (read_accounts-Yields s d e) in
          rw (round-locked sender receiver (suc left) attempt d p.0 covered) (
            settle_locked-Yields_err q laws r _ _ (now attempt) (handler (suc left) attempt) s
              (read_accounts q r d).1 p.1 old
              λ d' e'.
                let again =
                  retries-Yields sender receiver left (suc attempt) d' (omega arith) found covered
                    e' old in
                ground arith)

      -- A round whose checks throw, or find too little money, is the last.
      round-throws :
          (left attempt : ℕ) (d : Db) (x : Exception)
          → view d ≡ at_rest s
          → accounts_spec s ≡ err x
          → Yields q laws (settle_attempts q r now (suc left) attempt d) (err x) (at_rest s)
      unfolding settle_attempts
      round-throws left attempt d x e refused =
          let p = rw refused at (read_accounts-Yields s d e) in rw (p.0, ◌>>=◌) (refl, p.1)

      round-short :
          (sender receiver : Account) (left attempt : ℕ) (d : Db)
          → view d ≡ at_rest s
          → HasRoom s
          → accounts_spec s ≡ ok (sender, receiver)
          → ltb_ℤ sender.balance r.instruction.amount ≡ true
          → let end = post r (now attempt) rejected s.accounts s in
            Yields q laws (settle_attempts q r now (suc left) attempt d) end.0 (at_rest end.1)
      unfolding settle_attempts
      round-short sender receiver left attempt d e room found short =
          let p = rw found at (read_accounts-Yields s d e) in
          rw (p.0, ◌>>=◌)
            (rw short (record_rejected-Yields (now attempt) s (read_accounts q r d).1 p.1 room))

      settle_spec-err :
          (at : ℤ) (x : Exception) → accounts_spec s ≡ err x → settle_spec r at s ≡ (err x, s)
      unfolding settle_spec transfer_spec
      settle_spec-err at x h = ground arith

      settle_spec-ok :
          (at : ℤ) (sender receiver : Account)
          → accounts_spec s ≡ ok (sender, receiver)
          → settle_spec r at s ≡ (
              if ltb_ℤ sender.balance r.instruction.amount
              then post r at rejected s.accounts s
              else post r at settled
                  (transferred r.instruction.amount sender receiver s.accounts)
                  s)
      unfolding settle_spec transfer_spec
      settle_spec-ok at sender receiver h = ground arith

      settle-covered :
          (sender receiver : Account) (d : Db)
          → view d ≡ at_rest s
          → HasRoom s
          → accounts_spec s ≡ ok (sender, receiver)
          → ltb_ℤ sender.balance r.instruction.amount ≡ false
          → let end =
              post r
                (now 1)
                settled
                (transferred r.instruction.amount sender receiver s.accounts)
                s in
            Yields q laws (settle_attempts q r now 3 1 d) end.0 (at_rest end.1)
      unfolding post
      settle-covered sender receiver d e room found covered =
          elim (Bool-cases (has_hash (c_str r.packet_hash) s.transactions)) [
            | inl old ↦
                let p = retries-Yields sender receiver 2 1 d (omega arith) found covered e old in
                ground arith
            | inr new ↦
                let p = rw found at (read_accounts-Yields s d e) in
                let p₂ =
                  settle_locked-Yields q laws r (debit r.instruction.amount sender)
                    (credit r.instruction.amount receiver) (now 1) (handler 2 1) s
                    (read_accounts q r d).1 p.1 new room in
                rw (round-locked sender receiver 2 1 d p.0 covered) (ground arith)
          ]

    -- `settle` ends as the specification says: the same result or exception, and the same tables,
    -- whichever branch it takes, if no transaction is open and an id is left.
    pub settle-refines :
        (now : ℕ → ℤ) (s : Store) (d : Db)
        → view d ≡ at_rest s
        → HasRoom s
        → let end = settle_spec r (now 1) s in
          Yields q laws (settle q r now d) end.0 (at_rest end.1)
    unfolding settle
    settle-refines now s d e room = elim (Result-cases (accounts_spec s)) [
      | inr (x, h) ↦ rw (settle_spec-err now s (now 1) x h) (round-throws now s 2 1 d x e h)
      | inl ((sender, receiver), h) ↦
          rw (settle_spec-ok now s (now 1) sender receiver h)
            (elim (Bool-cases (ltb_ℤ sender.balance r.instruction.amount)) [
              | inl short ↦ rw short (round-short now s sender receiver 2 1 d e room h short)
              | inr covered ↦ rw covered (settle-covered now s sender receiver d e room h covered)
            ])
    ]
