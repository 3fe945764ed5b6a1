-- ===== src/Checks/Verdict.antt =====
-- The verdicts that the checking programs print.
use upi_w_o_internet.Common.{Bool, if◌then◌else◌}

-- `[PASS]` and `[FAIL]`
pub data Verdict : Type 0 where
  pass fail : Verdict

abbrev pub verdict : Bool → Verdict
verdict ok = if ok then pass else fail
