-- ===== src/Service/Settlement/Threads/Invariant.antt =====
-- Every section of a call of `settle` keeps the state sound, whatever the other threads do in between.
use upi_w_o_internet.Common.{
  ℕ, zero, suc, ◌<◌, String, ◌≡◌, refl, subst, ap, ◌∙◌, Bool, Option, none, some, inl, inr,
  Bool-cases, List, arith, ◌==◌,
}
use upi_w_o_internet.Common.Int.{ℤ, pos, leb_ℤ, ltb_ℤ, ◌≤ℤ◌, ◌<ℤ◌, ltb_ℤ→≤ℤ, leb_ℤ→<ℤ}
use upi_w_o_internet.Common.Result.{Result, Action, Exception, ok, err}
use upi_w_o_internet.Common.Text.{c_str, str_eq}
use upi_w_o_internet.Model.Records.{Account, Transaction, Status, settled, rejected}
use upi_w_o_internet.Model.Sqlite.{Sqlite}
use upi_w_o_internet.Model.Tables.{Store, Tables, find_account}
use upi_w_o_internet.Model.Documented.{IsSqlite}
use upi_w_o_internet.Model.AccountRepository
use upi_w_o_internet.Model.Views.{find_by_id-Yields}
use upi_w_o_internet.Model.Ledger.{IsLedger, upsert-IsLedger}
use upi_w_o_internet.Service.Settlement.{
  Request, max_attempts, debit, credit, record_rejected, locked_section,
}
use upi_w_o_internet.Service.Settlement.Spec.{post}
use upi_w_o_internet.Service.Settlement.Locking.{at_rest}
use upi_w_o_internet.Service.Settlement.Refinement.{record_rejected-Yields}
use upi_w_o_internet.Service.Settlement.Threads.{
  Thread, finished, checked, or_err, ◌>>=◌, after_section, paying, settle_rounds, settle_thread,
}
use upi_w_o_internet.Service.Settlement.Threads.Keeping.{returned, Safe}
use upi_w_o_internet.Service.Settlement.Threads.Sections.{locked_section-Yields}
use upi_w_o_internet.Service.Settlement.Threads.Sound.{
  logged, won, logged-post, Spares, AllSpare, Spares-weaken, AllSpare-weaken, find_account-Spares,
  upsert-AllSpare, IsSound, IsSound-weaken, post-IsSound, debit-Spares, credit-Spares,
}

module _ (q : Sqlite) (laws : IsSqlite q) (amount : ℕ) (h : String) where
  open q use {Db}
  open laws use {view}

  abbrev pub Inv : ℕ → Db → Type 0
  Inv n d = IsSound amount n (view d)

  abbrev pub held : Db → ℕ
  held d = logged h (view d).current

  abbrev pub Keeps : Bool → ℕ → Thread Db → Type 0
  Keeps = Safe Inv held

  -- A thread that is no result yet, and is safe.
  abbrev GoesOn : Bool → ℕ → Thread Db → Type 0
  GoesOn counts n t = (returned t ≡ 0) × Keeps counts n t

  module _ (counts : Bool) where
    -- A section that reads an account.
    find_by_id-Keeps :
        (n : ℕ) (vpa : String) (k : Option Account → Thread Db)
        → ((m : ℕ) (o : Option Account)
            → m < n
            → ((a : Account) → o ≡ some a → Spares amount (suc m) a)
            → GoesOn counts m (k o))
        → Keeps counts n (AccountRepository.find_by_id q vpa >>= k)
    unfolding Safe
    find_by_id-Keeps n vpa k goes m lt d i =
        let found = find_account (c_str vpa) (view d).current.accounts in
        let (reads, same) = find_by_id-Yields q laws vpa d in
        let (zero', safe) =
          goes m found lt (λ a e. find_account-Spares amount _ (suc m) a _ i.spare e) in
        (
          rw same (IsSound-weaken amount m (view d) i),
          rw (same, reads, zero') (ground arith),
          rw reads safe,
        )

  module _ (r : Request) where
    abbrev counts : Bool
    counts = str_eq (c_str r.packet_hash) h

    -- A section that posts a row, and what the thread is then.
    record Posts (m : ℕ) (s : Store) (end : Tables) (t : Thread Db) : Type 0 where
      at : ℤ
      status : Status
      accounts : List Account
      ledger : IsLedger accounts
      spare : AllSpare amount m accounts
      same : end ≡ at_rest (post r at status accounts s).1
      wins : returned t ≡ won (post r at status accounts s).0
      safe : Keeps counts m t

    posted-Keeps :
        {A : Type 0} (n : ℕ) (act : Action Db A) (k : A → Thread Db)
        → ((m : ℕ) (s : Store) (d : Db)
            → m < n
            → view d ≡ at_rest s
            → IsSound amount (suc m) (at_rest s)
            → Posts m s (view (act d).1) (checked (act d).0 k))
        → Keeps counts n (act >>= k)
    unfolding Safe
    posted-Keeps n act k posts m lt d i =
        let s = (view d).current in
        let i' = subst (IsSound amount (suc m)) i.rests i in
        let p = posts m s d lt i.rests i' in
        (
          rw p.same (post-IsSound amount m r p.at p.status p.accounts s i' p.ledger p.spare),
          rw (p.wins, p.same) (logged-post h r p.at p.status p.accounts s),
          p.safe,
        )

    -- The result of a call that ends with it.
    ended :
        (m : ℕ) (end : Result Transaction)
        → let t = checked end (λ tx. finished (ok tx)) in (returned t ≡ won end) × Keeps counts m t
    unfolding Safe returned
    ended m (ok tx) = (refl, tt)
    ended m (err e) = (refl, tt)

    -- The end of a round, with a next round that is safe.
    round_ended :
        (m attempt : ℕ) (continue : Thread Db) (end : Result Transaction)
        → GoesOn counts m continue
        → let t = after_section q r continue attempt end in
          (returned t ≡ won end) × Keeps counts m t
    unfolding Safe returned
    round_ended m attempt continue (ok tx) goes = (refl, tt)
    round_ended m attempt continue (err e) (zero', safe) =
        elim (Bool-cases (attempt == max_attempts)) [
          | inl last ↦ rw last (refl, tt)
          | inr more ↦ rw more (zero', safe)
        ]

    record_rejected-Keeps :
        (n : ℕ) (at : ℤ) → Keeps counts n (record_rejected q r at >>= λ tx. finished (ok tx))
    record_rejected-Keeps n at =
        posted-Keeps n (record_rejected q r at) (λ tx. finished (ok tx))
          λ m s d lt e i.
            let p = record_rejected-Yields q laws r at s d e (omega (arith, i.ids)) in
            let (wins, safe) = ended m (record_rejected q r at d).0 in
            record {
              at = at;
              status = rejected;
              accounts = s.accounts;
              ledger = i.ledger;
              spare = AllSpare-weaken amount m (suc m) s.accounts (omega arith) i.spare;
              same = p.1;
              wins = wins ∙ ap won p.0;
              safe = safe;
            }

    module _ (positive : pos 0 <ℤ r.instruction.amount)
        (bounded : r.instruction.amount ≤ℤ pos amount) where
      locked_section-Keeps :
          (n attempt : ℕ) (at : ℤ) (continue : Thread Db) (a b : Account)
          → ((m : ℕ) → m < n → GoesOn counts m continue)
          → Spares amount n a
          → Spares amount n b
          → r.instruction.amount ≤ℤ a.balance
          → let x = r.instruction.amount in
            Keeps counts n (
              locked_section q r (debit x a) (credit x b) at >>= after_section q r continue attempt)
      locked_section-Keeps n attempt at continue a b goes ha hb covered =
          let x = r.instruction.amount in
          posted-Keeps n (locked_section q r (debit x a) (credit x b) at)
            (after_section q r continue attempt)
            λ m s d lt e i.
              let p =
                locked_section-Yields q laws r (debit x a) (credit x b) at s d e
                  (omega (arith, i.ids)) in
              let da =
                debit-Spares amount m x positive bounded a
                  (Spares-weaken amount m n a (omega (arith, lt)) ha) covered in
              let cb =
                credit-Spares amount m x positive bounded b
                  (Spares-weaken amount (suc m) n b (omega (arith, lt)) hb) in
              let kept = AllSpare-weaken amount m (suc m) s.accounts (omega arith) i.spare in
              let (wins, safe) = round_ended m attempt continue _ (goes m lt) in
              record {
                at = at;
                status = settled;
                accounts = _;
                ledger = upsert-IsLedger _ _ (upsert-IsLedger _ _ i.ledger da.0) cb.0;
                spare = upsert-AllSpare amount m _ _ (upsert-AllSpare amount m _ _ kept da) cb;
                same = p.1;
                wins = rw p.0 wins;
                safe = rw p.0 safe;
              }

    found-GoesOn :
        (n : ℕ) (o : Option Account) (x : Exception) (k : Account → Thread Db)
        → ((a : Account) → o ≡ some a → GoesOn counts n (k a))
        → GoesOn counts n (checked (or_err o x) k)
    unfolding Safe returned
    found-GoesOn n none x k goes = (refl, tt)
    found-GoesOn n (some a) x k goes = goes a refl

    module _ (bounded : r.instruction.amount ≤ℤ pos amount) where
      paying-GoesOn :
          (n attempt : ℕ) (at : ℤ) (continue : Thread Db) (a b : Account)
          → ((m : ℕ) → m < n → GoesOn counts m continue)
          → Spares amount n a
          → Spares amount n b
          → GoesOn counts n (paying q r continue attempt at a b)
      unfolding Safe returned
      paying-GoesOn n attempt at continue a b goes ha hb =
          let x = r.instruction.amount in
          elim (Bool-cases (leb_ℤ x (pos 0))) [
            | inl bad ↦ rw bad (refl, tt)
            | inr good ↦ rw good (elim (Bool-cases (ltb_ℤ a.balance x)) [
              | inl short ↦ rw short (refl, record_rejected-Keeps n at)
              | inr covered ↦ rw covered (
                refl,
                locked_section-Keeps (leb_ℤ→<ℤ x (pos 0) good) bounded n attempt at continue a b
                    goes ha hb (ltb_ℤ→≤ℤ a.balance x covered),
              )
            ])
          ]

      settle_rounds-GoesOn :
          (now : ℕ → ℤ) (left attempt n : ℕ) → GoesOn counts n (settle_rounds q r now left attempt)
      unfolding settle_rounds Safe returned
      settle_rounds-GoesOn now zero attempt n = (refl, tt)
      settle_rounds-GoesOn now (suc left) attempt n = (
        refl,
        find_by_id-Keeps counts n _ _ λ m sender_opt lt ha. found-GoesOn m sender_opt _ _ λ a ea. (
          refl,
          find_by_id-Keeps counts m _ _ λ m' receiver_opt lt' hb.
              found-GoesOn m' receiver_opt _ _ λ b eb.
                paying-GoesOn m' attempt (now attempt) _ a b
                  (λ k _. settle_rounds-GoesOn now left (suc attempt) k)
                  (Spares-weaken amount m' (suc m) a (omega (arith, lt')) (ha a ea))
                  (Spares-weaken amount m' (suc m') b (omega arith) (hb b eb)),
        ),
      )

      pub settle_thread-Keeps : (now : ℕ → ℤ) (n : ℕ) → Keeps counts n (settle_thread q r now)
      unfolding settle_thread
      settle_thread-Keeps now n = (settle_rounds-GoesOn now max_attempts 1 n).1
