-- ===== src/Checks/Phase2/Outcome.antt =====
-- model/verify_phase2.cpp: what it reports.
use upi_w_o_internet.Common.{suc, ◌≡◌, refl, true, false, some, arith}
use upi_w_o_internet.Common.Int.{pos, sub64}
use upi_w_o_internet.Common.Result.{ok}
use upi_w_o_internet.Common.Text.{c_str}
use upi_w_o_internet.Model.Records.{Account}
use upi_w_o_internet.Model.Sqlite.{Sqlite}
use upi_w_o_internet.Model.Documented.{IsSqlite}
use upi_w_o_internet.Model.Tables.{Store, find_account, upsert, has_hash, append_row}
use upi_w_o_internet.Model.Views.{
  Yields, find_by_id-Yields, save_account-Yields, save_tx-Yields, save_tx-Yields_err,
  stored_account, stored_row,
}
use upi_w_o_internet.Service.Settlement.Refinement.{at_rest, HasRoom}
use upi_w_o_internet.Service.Settlement.Once.{has_hash-append}
use upi_w_o_internet.Model.Queries.{exists_by_packet_hash-Yields}
use upi_w_o_internet.Model.AccountRepository
use upi_w_o_internet.Model.TransactionRepository
use upi_w_o_internet.Checks.Verdict.{pass, fail}
use upi_w_o_internet.Checks.Phase2.{check_stale_view, check_duplicate_hash, verify_phase2, tx1}

module _ (q : Sqlite) (laws : IsSqlite q) where
  open laws use {view}

  abbrev pub with_accounts : Account → Account → Store → Store
  with_accounts first second s = record s {
    accounts = upsert (stored_account second) (upsert (stored_account first) s.accounts);
  }

  check_stale_view-Yields :
      (s : Store) (d : q.Db) (bob : Account)
      → view d ≡ at_rest s
      → find_account "bob@demo" s.accounts ≡ some bob
      → Yields q laws (check_stale_view q d) (ok fail) (
          at_rest (
            with_accounts
              (record bob { balance = sub64 bob.balance (pos 20000) })
              (record bob { balance = sub64 bob.balance (pos 30000) })
              s))
  unfolding check_stale_view c_str
  check_stale_view-Yields s d bob e found =
      let p = rw e at (find_by_id-Yields q laws "bob@demo" d) in
      let d₁ = (AccountRepository.find_by_id q "bob@demo" d).1 in
      let first = record bob { balance = sub64 bob.balance (pos 20000) } in
      let second = record bob { balance = sub64 bob.balance (pos 30000) } in
      let p₂ = rw (p.1) at (save_account-Yields q laws first d₁) in
      let d₂ = (AccountRepository.save q first d₁).1 in
      let p₃ = rw (p₂.1) at (save_account-Yields q laws second d₂) in ground arith

  check_duplicate_hash-Yields :
      (s : Store) (d : q.Db)
      → view d ≡ at_rest s
      → has_hash "abcdef1234567890_mock_hash" s.transactions ≡ false
      → HasRoom s
      → Yields q laws
          (check_duplicate_hash q d)
          (ok (pass, true))
          (at_rest (append_row (stored_row tx1) s))
  unfolding check_duplicate_hash c_str
  check_duplicate_hash-Yields s d e new room =
      let s₁ = append_row (stored_row tx1) s in
      let p₁ = rw e at (save_tx-Yields q laws tx1 d (rw e new) (rw e room)) in
      let d₁ = (TransactionRepository.save q tx1 d).1 in
      let tx2 = record tx1 { id = pos (suc s.sequence); amount = pos 99999 } in
      let known : has_hash "abcdef1234567890_mock_hash" s₁.transactions ≡ true =
        rw
          (
            has_hash-append "abcdef1234567890_mock_hash" s.transactions
                (record (stored_row tx1) { id = suc s.sequence }),
            new,
          )
          refl in
      let p₂ = rw p₁.1 at (save_tx-Yields_err q laws tx2 d₁ (rw p₁.1 known)) in
      let d₂ = (TransactionRepository.save q tx2 d₁).1 in
      let p₃ =
        rw (p₂.1, known) at (exists_by_packet_hash-Yields q laws "abcdef1234567890_mock_hash" d₂) in
      ground arith

  -- On tables in which alice has Rs 5000 and bob is found, with the hash of the program's transaction
  -- not in the log, no SQL transaction open and an id left, the program reports that the stale view
  -- was saved, that the duplicate hash was refused and that the hash exists: the optimistic lock that
  -- it checks for never holds. Its one transaction is in the log, and the first change of bob's
  -- balance is lost.
  pub verify_phase2-Yields :
      (s : Store) (d : q.Db) (alice bob : Account)
      → view d ≡ at_rest s
      → find_account "alice@demo" s.accounts ≡ some alice
      → alice.balance ≡ pos 500000
      → find_account "bob@demo" s.accounts ≡ some bob
      → has_hash "abcdef1234567890_mock_hash" s.transactions ≡ false
      → HasRoom s
      → Yields q laws
          (verify_phase2 q d)
          (ok (some (record { stale_view = fail; duplicate_hash = pass; exists = true })))
          (at_rest (
            append_row (stored_row tx1) (
              with_accounts
                (record bob { balance = sub64 bob.balance (pos 20000) })
                (record bob { balance = sub64 bob.balance (pos 30000) })
                s)))
  unfolding verify_phase2 c_str
  verify_phase2-Yields s d alice bob e found rich found_bob new room =
      let p₁ = rw e at (find_by_id-Yields q laws "alice@demo" d) in
      let d₁ = (AccountRepository.find_by_id q "alice@demo" d).1 in
      let p₂ = check_stale_view-Yields s d₁ bob p₁.1 found_bob in
      let d₂ = (check_stale_view q d₁).1 in
      let p₃ = check_duplicate_hash-Yields _ d₂ p₂.1 new room in ground arith
