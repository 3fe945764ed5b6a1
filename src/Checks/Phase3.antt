-- ===== src/Checks/Phase3.antt =====
-- service/verify_phase3.cpp: a hundred claims of one hash, and ten payments from one account.
-- The threads of the first test are let through by the mutex one at a time; which of them comes first
-- makes no difference, since all do the same. The second test is modelled on the schedules in which
-- no thread enters `settle` before another has left it.
pub mod Claims
pub mod Payments
use Prim.Native.String.{◌++◌ as ◌<>◌}
use upi_w_o_internet.Common.{
  ℕ, zero, suc, String, Bool, true, false, Option, List, [], ◌∷◌, if◌then◌else◌, ◌==◌, ◌&&◌,
}
use upi_w_o_internet.Common.Int.{ℤ, pos, leb_ℤ, sub64}
use upi_w_o_internet.Common.Result.{Action, foreign, or_throw, catch, pure, ◌>>=◌, ◌>>◌}
use upi_w_o_internet.Model.Records.{Account, PaymentInstruction}
use upi_w_o_internet.Model.Sqlite.{Sqlite}
use upi_w_o_internet.Model.AccountRepository
use upi_w_o_internet.Service.Idempotency.{Seen, new_seen, claim}
use upi_w_o_internet.Service.Settlement.{settle}
use upi_w_o_internet.Checks.Verdict.{Verdict, verdict}

-- The threads that are left, with `successCount` and `failCount`; `now` is the clock's reading in
-- each of them.
unfoldable pub race : (ℕ → ℤ) → String → ℕ → Seen → ℕ × ℕ → ℕ × ℕ
race now hash zero s counts = counts
race now hash (suc left) s (won, lost) =
    let (first, s') = claim (now left) hash s in
    race now hash left s' (if first then (suc won, lost) else (won, suc lost))

abbrev pub thread_count : ℕ
thread_count = 100

unfoldable pub test_idempotency : (ℕ → ℤ) → Verdict
test_idempotency now =
    let (won, lost) = race now "hash_race_condition_test_123456" thread_count new_seen (0, 0) in
    verdict (won == 1 && lost == 99)

-- What the second test prints.
pub record SettlementReport : Type 0 where
  pub completed : ℕ
  pub exhausted : ℕ
  pub alice_delta : ℤ
  pub bob_delta : ℤ
  pub outcome : Verdict

abbrev pub one_rupee : PaymentInstruction
one_rupee = record {
  sender_vpa = "alice@demo";
  receiver_vpa = "bob@demo";
  amount = pos 100;
  pin_hash = "";
  nonce = "";
  signed_at = pos 1000;
}

-- `std::to_string` is a parameter; `now` is the clock in each thread and attempt.
module _ (q : Sqlite) (to_string : ℕ → String) (now : ℕ → ℕ → ℤ) where
  open q use {Db}

  -- The body of one thread: whether the payment was completed.
  unfoldable pub pay_once : ℕ → Action Db Bool
  pay_once i =
      catch
        (do
          tx ←
              settle q
                (record {
                  instruction = one_rupee;
                  packet_hash = "hash_multi_txn_" <> to_string i;
                  bridge_node_id = "bridge-1";
                  hop_count = pos 1;
                })
                (now i)
          pure true)
        λ e. pure false

  unfoldable pub pay_all : List ℕ → ℕ × ℕ → Action Db (ℕ × ℕ)
  pay_all [] counts = pure counts
  pay_all (i ∷ threads) (completed, exhausted) = do
    done ← pay_once i
    pay_all threads (if done then (suc completed, exhausted) else (completed, suc exhausted))

  -- `findById(vpa)->balance`
  unfoldable pub balance_of : String → Action Db ℤ
  balance_of vpa = do
    found ← AccountRepository.find_by_id q vpa
    account ← or_throw found (foreign "no value")
    pure account.balance

  -- `order` is the order in which the ten threads run.
  unfoldable pub test_settlement : List ℕ → Action Db SettlementReport
  test_settlement order = do
    alice ← balance_of "alice@demo"
    bob ← balance_of "bob@demo"
    (completed, exhausted) ← pay_all order (0, 0)
    alice' ← balance_of "alice@demo"
    bob' ← balance_of "bob@demo"
    let spent = sub64 alice alice'
    pure (record {
      completed = completed;
      exhausted = exhausted;
      alice_delta = spent;
      bob_delta = sub64 bob' bob;
      outcome = verdict (completed == 10 && (leb_ℤ spent (pos 1000) && leb_ℤ (pos 1000) spent));
    })
