-- ===== src/Service/Settlement/Threads/Alone.antt =====
-- A thread that runs with no other does what `settle` does.
use Prim.Native.String.{◌++◌ as ◌<>◌}
use upi_w_o_internet.Common.{
  ℕ, zero, suc, ◌≡◌, refl, sym, ap, ◌∙◌, ◌⊎◌, none, some, inl, inr, false, Bool-cases, ◌==◌,
  if◌then◌else◌, arith,
}
use upi_w_o_internet.Common.Int.{ℤ, pos, leb_ℤ, ltb_ℤ}
use upi_w_o_internet.Common.Result.{
  Result, Action, Exception, ok, err, invalid_argument, Result-cases, throw, ◌>>=◌,
}
use upi_w_o_internet.Model.Records.{Account, Transaction}
use upi_w_o_internet.Model.Sqlite.{Sqlite}
use upi_w_o_internet.Model.AccountRepository
use upi_w_o_internet.Service.Settlement.{
  Request, max_attempts, debit, credit, record_rejected, read_accounts, locked_section,
  settle_locked, settle_attempts, settle,
}
use upi_w_o_internet.Service.Settlement.Threads.{
  Thread, finished, checked, after_section, paying, settle_rounds, settle_thread, run_alone,
}

module _ (q : Sqlite) (r : Request) where
  open q use {Db}

  -- The end of a round, as an action.
  abbrev goes_on : (Exception → Action Db Transaction) → Result Transaction → Action Db Transaction
  goes_on retry (ok tx) d = (ok tx, d)
  goes_on retry (err e) d = retry e d

  settle_locked-locked_section :
      (a b : Account) (at : ℤ) (retry : Exception → Action Db Transaction) (d : Db)
      → settle_locked q r a b at retry d ≡ (locked_section q r a b at >>= goes_on retry) d
  unfolding settle_locked locked_section
  settle_locked-locked_section a b at retry d = ground arith

  module _ (now : ℕ → ℤ) (left attempt : ℕ)
      (continues : (d : Db)
        → run_alone (settle_rounds q r now left (suc attempt)) d
          ≡ settle_attempts q r now left (suc attempt) d) where
    abbrev retry : Exception → Action Db Transaction
    retry e =
        if attempt == max_attempts then throw e else settle_attempts q r now left (suc attempt)

    abbrev ends : Result Transaction → Thread Db
    ends = after_section q r (settle_rounds q r now left (suc attempt)) attempt

    ends-goes_on :
        (end : Result Transaction) (d : Db) → run_alone (ends end) d ≡ goes_on retry end d
    unfolding run_alone
    ends-goes_on (ok tx) d = refl
    ends-goes_on (err e) d = elim (Bool-cases (attempt == max_attempts)) [
      | inl last ↦ rw last refl
      | inr more ↦ rw more (continues d)
    ]

    checked-goes_on :
        (end : Result (Result Transaction)) (d : Db)
        → run_alone (checked end ends) d ≡ ((λ _. (end, d)) >>= goes_on retry) d
    unfolding run_alone
    checked-goes_on (ok end) d = ends-goes_on end d
    checked-goes_on (err e) d = refl

    run_alone-locked_section :
        (a b : Account) (at : ℤ) (d : Db)
        → let (end, d') = locked_section q r a b at d in
          run_alone (checked end ends) d' ≡ settle_locked q r a b at retry d
    run_alone-locked_section a b at d =
        let (end, d') = locked_section q r a b at d in
        checked-goes_on end d' ∙ sym (settle_locked-locked_section a b at retry d)

    recorded :
        (end : Result Transaction × Db)
        → run_alone (checked end.0 (λ tx. finished (ok tx))) end.1 ≡ end
    unfolding run_alone
    recorded (ok tx, d) = refl
    recorded (err e, d) = refl

    -- What a round is when it has read, on either side.
    abbrev Reads : Db → Type 0
    Reads d =
        let alone = run_alone (settle_rounds q r now (suc left) attempt) d in
        let read = read_accounts q r d in
        ((x : Exception) × (d' : Db) × (read ≡ (err x, d')) × (alone ≡ (err x, d')))
        ⊎ ((a b : Account) × (d' : Db) × (leb_ℤ r.instruction.amount (pos 0) ≡ false)
            × (read ≡ (ok (a, b), d'))
            × (alone
                ≡ run_alone
                    (paying q r (settle_rounds q r now left (suc attempt)) attempt (now attempt) a
                      b)
                    d'))

    reads : (d : Db) → Reads d
    unfolding settle_rounds run_alone read_accounts
    reads d =
        let i = r.instruction in
        let (found, d₁) = AccountRepository.find_by_id q i.sender_vpa d in
        let d₂ = (AccountRepository.find_by_id q i.receiver_vpa d₁).1 in
        let no_sender = invalid_argument ("Unknown sender VPA: " <> i.sender_vpa) in
        let no_receiver = invalid_argument ("Unknown receiver VPA: " <> i.receiver_vpa) in
        elim (Result-cases (AccountRepository.find_by_id q i.sender_vpa d).0) [
          | inr (x, e) ↦ inl (x, d₁, rw (e, ◌>>=◌) refl, rw (e, run_alone) refl)
          | inl (none, e) ↦ inl (no_sender, d₁, rw (e, ◌>>=◌) refl, rw (e, run_alone) refl)
          | inl (some sender, e) ↦
              elim (Result-cases (AccountRepository.find_by_id q i.receiver_vpa d₁).0) [
                | inr (x, f) ↦ inl (
                  x,
                  d₂,
                  rw (e, ◌>>=◌) (rw (f, ◌>>=◌) refl),
                  rw (e, run_alone) (rw (f, run_alone) refl),
                )
                | inl (none, f) ↦ inl (
                  no_receiver,
                  d₂,
                  rw (e, ◌>>=◌) (rw (f, ◌>>=◌) refl),
                  rw (e, run_alone) (rw (f, run_alone) refl),
                )
                | inl (some receiver, f) ↦ elim (Bool-cases (leb_ℤ i.amount (pos 0))) [
                  | inl bad ↦ inl (
                    invalid_argument "Amount must be positive",
                    d₂,
                    rw (e, ◌>>=◌) (rw (f, ◌>>=◌) (rw bad refl)),
                    rw (e, run_alone) (rw (f, run_alone) (rw bad refl)),
                  )
                  | inr good ↦ inr (
                    sender,
                    receiver,
                    d₂,
                    good,
                    rw (e, ◌>>=◌) (rw (f, ◌>>=◌) (rw good refl)),
                    rw (e, run_alone) (rw (f, run_alone) refl),
                  )
                ]
              ]
        ]

    -- The rest of a round, as an action.
    abbrev pay : Account × Account → Action Db Transaction
    pay (a, b) =
        let amount = r.instruction.amount in
        if ltb_ℤ a.balance amount
        then record_rejected q r (now attempt)
        else settle_locked q r (debit amount a) (credit amount b) (now attempt) retry

    paying-pay :
        (a b : Account) (d : Db)
        → leb_ℤ r.instruction.amount (pos 0) ≡ false
        → run_alone
            (paying q r (settle_rounds q r now left (suc attempt)) attempt (now attempt) a b)
            d
          ≡ pay (a, b) d
    unfolding run_alone
    paying-pay a b d good =
        let amount = r.instruction.amount in
        rw good (elim (Bool-cases (ltb_ℤ a.balance amount)) [
          | inl short ↦ rw short (recorded (record_rejected q r (now attempt) d))
          | inr covered ↦
              rw covered
                (run_alone-locked_section (debit amount a) (credit amount b) (now attempt) d)
        ])

    next-settle_attempts :
        (d : Db)
        → run_alone (settle_rounds q r now (suc left) attempt) d
          ≡ settle_attempts q r now (suc left) attempt d
    unfolding settle_attempts
    next-settle_attempts d = elim (reads d) [
      | inl (x, d', read, alone) ↦ alone ∙ sym (ap (λ end. ((λ _. end) >>= pay) d) read)
      | inr (a, b, d', good, read, alone) ↦
          alone ∙ paying-pay a b d' good ∙ sym (ap (λ end. ((λ _. end) >>= pay) d) read)
    ]

  settle_rounds-settle_attempts :
      (now : ℕ → ℤ) (left attempt : ℕ) (d : Db)
      → run_alone (settle_rounds q r now left attempt) d ≡ settle_attempts q r now left attempt d
  unfolding settle_rounds settle_attempts run_alone
  settle_rounds-settle_attempts now zero attempt d = refl
  settle_rounds-settle_attempts now (suc left) attempt d =
      next-settle_attempts now left attempt (settle_rounds-settle_attempts now left (suc attempt)) d

  -- A call of `settle` whose sections run with no other thread between them is the call of `settle`:
  -- the same result or exception and the same state after it, from any state.
  pub settle_thread-settle :
      (now : ℕ → ℤ) (d : Db) → run_alone (settle_thread q r now) d ≡ settle q r now d
  unfolding settle_thread settle
  settle_thread-settle now d = settle_rounds-settle_attempts now max_attempts 1 d
