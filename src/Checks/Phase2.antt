-- ===== src/Checks/Phase2.antt =====
-- model/verify_phase2.cpp: the seed, the two views of one account, the duplicate hash.
pub mod Outcome
use upi_w_o_internet.Common.{String, Bool, true, false, Option, none, some, if◌then◌else◌, ◌&&◌}
use upi_w_o_internet.Common.Int.{ℤ, pos, leb_ℤ, sub64}
use upi_w_o_internet.Common.Result.{
  Action, Exception, foreign, throw, or_throw, catch, pure, ◌>>=◌, ◌>>◌,
}
use upi_w_o_internet.Model.Records.{Account, Transaction, settled}
use upi_w_o_internet.Model.Sqlite.{Sqlite}
use upi_w_o_internet.Model.AccountRepository
use upi_w_o_internet.Model.TransactionRepository
use upi_w_o_internet.Checks.Verdict.{Verdict, pass, fail, verdict}

-- What the program prints after the first section passed.
pub record Report : Type 0 where
  pub stale_view : Verdict
  pub duplicate_hash : Verdict
  pub exists : Bool

-- `balance == 500000`, for an account that was found.
abbrev pub is_seeded : Option Account → Bool
is_seeded none = false
is_seeded (some a) = leb_ℤ a.balance (pos 500000) && leb_ℤ (pos 500000) a.balance

abbrev pub tx1 : Transaction
tx1 = record {
  id = pos 0;
  packet_hash = "abcdef1234567890_mock_hash";
  sender_vpa = "alice@demo";
  receiver_vpa = "bob@demo";
  amount = pos 20000;
  signed_at = pos 1690000000;
  settled_at = pos 1690000005;
  bridge_node_id = "bridge-node-1";
  hop_count = pos 3;
  status = settled;
}

module _ (q : Sqlite) where
  open q use {Db}

  -- Section 2. The handler is for ConcurrencyException, which no code throws; any other exception
  -- goes on.
  unfoldable pub check_stale_view : Action Db Verdict
  check_stale_view = do
    found ← AccountRepository.find_by_id q "bob@demo"
    bob ← or_throw found (foreign "bad_optional_access")
    AccountRepository.save q (record bob { balance = sub64 bob.balance (pos 20000) })
    catch
        (do
          AccountRepository.save q (record bob { balance = sub64 bob.balance (pos 30000) })
          pure fail)
        throw

  -- Section 3: the copy has the id that the first save set, and another amount.
  unfoldable pub check_duplicate_hash : Action Db (Verdict × Bool)
  check_duplicate_hash = do
    saved ← TransactionRepository.save q tx1
    duplicate ←
        catch
          (do again ← TransactionRepository.save q (record saved { amount = pos 99999 }); pure fail)
          λ e. pure pass
    exists ← TransactionRepository.exists_by_packet_hash q "abcdef1234567890_mock_hash"
    pure (duplicate, exists)

  -- `none`: the first section failed and the program returned 1.
  unfoldable pub verify_phase2 : Action Db (Option Report)
  verify_phase2 = do
    alice ← AccountRepository.find_by_id q "alice@demo"
    if is_seeded alice
        then (do
          stale_view ← check_stale_view
          (duplicate, exists) ← check_duplicate_hash
          pure (
              some
                (record { stale_view = stale_view; duplicate_hash = duplicate; exists = exists })))
        else pure none
