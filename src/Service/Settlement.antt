-- ===== src/Service/Settlement.antt =====
-- service/SettlementService.cpp: settling a payment, with three attempts.
-- `now` gives the reading of the clock in each attempt. The balances are read before the lock is
-- taken, and written in one transaction under it.
pub mod Spec
pub mod Locking
pub mod Refinement
pub mod Conservation
pub mod Once
pub mod Interleaving
pub mod Threads
pub mod Rounds
use Prim.Native.String.{◌++◌ as ◌<>◌}
use upi_w_o_internet.Common.{ℕ, zero, suc, String, Bool, Option, none, some, if◌then◌else◌, ◌==◌}
use upi_w_o_internet.Common.Int.{ℤ, pos, leb_ℤ, ltb_ℤ, add64, sub64}
use upi_w_o_internet.Common.Result.{
  Action, Result, ok, err, Exception, invalid_argument, runtime_error, throw, or_throw, throw_if,
  catch, pure, ◌>>=◌, ◌>>◌,
}
use upi_w_o_internet.Model.Records.{
  Account, Transaction, PaymentInstruction, Status, settled, rejected,
}
use upi_w_o_internet.Model.Sqlite.{Sqlite, sql_begin, sql_commit, sql_rollback}
use upi_w_o_internet.Model.Database
use upi_w_o_internet.Model.AccountRepository
use upi_w_o_internet.Model.TransactionRepository

abbrev max_attempts : ℕ
max_attempts = 3

-- The arguments of `settle`.
pub record Request : Type 0 where
  pub instruction : PaymentInstruction
  pub packet_hash : String
  pub bridge_node_id : String
  pub hop_count : ℤ

-- The id is not set before the row is saved.
abbrev pub new_transaction : Request → ℤ → Status → Transaction
new_transaction r settled_at status = record {
  id = pos 0;
  packet_hash = r.packet_hash;
  sender_vpa = r.instruction.sender_vpa;
  receiver_vpa = r.instruction.receiver_vpa;
  amount = r.instruction.amount;
  signed_at = r.instruction.signed_at;
  settled_at = settled_at;
  bridge_node_id = r.bridge_node_id;
  hop_count = r.hop_count;
  status = status;
}

abbrev pub debit : ℤ → Account → Account
debit amount a = record a { balance = sub64 a.balance amount }

abbrev pub credit : ℤ → Account → Account
credit amount a = record a { balance = add64 a.balance amount }

module _ (q : Sqlite) (r : Request) where
  open q use {Db}

  unfoldable pub record_rejected : ℤ → Action Db Transaction
  record_rejected settled_at = TransactionRepository.save q (new_transaction r settled_at rejected)

  -- The reads and the checks before the transaction.
  unfoldable pub read_accounts : Action Db (Account × Account)
  read_accounts = do
    sender_opt ← AccountRepository.find_by_id q r.instruction.sender_vpa
    sender ←
        or_throw sender_opt (invalid_argument ("Unknown sender VPA: " <> r.instruction.sender_vpa))
    receiver_opt ← AccountRepository.find_by_id q r.instruction.receiver_vpa
    receiver ←
        or_throw receiver_opt
          (invalid_argument ("Unknown receiver VPA: " <> r.instruction.receiver_vpa))
    throw_if (leb_ℤ r.instruction.amount (pos 0)) (invalid_argument "Amount must be positive")
    pure (sender, receiver)

  -- The body of the `try`.
  unfoldable pub write_settlement : Account → Account → ℤ → Action Db Transaction
  write_settlement sender receiver settled_at = do
    AccountRepository.save q sender
    AccountRepository.save q receiver
    tx ← TransactionRepository.save q (new_transaction r settled_at settled)
    Database.execute q sql_commit
    pure tx

  -- The section under the lock; `retry` is the rest of the loop.
  unfoldable pub settle_locked :
      Account → Account → ℤ → (Exception → Action Db Transaction) → Action Db Transaction
  settle_locked sender receiver settled_at retry = do
    Database.execute q sql_begin
    catch (write_settlement sender receiver settled_at)
        λ e. do Database.execute q sql_rollback; retry e

  -- The same block up to the end of its `catch`: what was caught is a value, for a thread that gives
  -- the lock back before it goes on.
  unfoldable pub locked_section : Account → Account → ℤ → Action Db (Result Transaction)
  locked_section sender receiver settled_at = do
    Database.execute q sql_begin
    catch (do tx ← write_settlement sender receiver settled_at; pure (ok tx))
        λ e. do Database.execute q sql_rollback; pure (err e)

  -- `for (attempt = 1; attempt <= maxAttempts; ++attempt)`, with the rounds left.
  unfoldable pub settle_attempts : (ℕ → ℤ) → ℕ → ℕ → Action Db Transaction
  settle_attempts now zero attempt = throw (runtime_error "Settlement failed unexpectedly")
  settle_attempts now (suc left) attempt =
      let continue = settle_attempts now left (suc attempt) in
      let amount = r.instruction.amount in
      do
        (sender, receiver) ← read_accounts
        if ltb_ℤ sender.balance amount
            then record_rejected (now attempt)
            else settle_locked (debit amount sender) (credit amount receiver) (now attempt)
                λ e. if attempt == max_attempts then throw e else continue

  unfoldable pub settle : (ℕ → ℤ) → Action Db Transaction
  settle now = settle_attempts now max_attempts 1
