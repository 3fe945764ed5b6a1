-- ===== src/Service/Settlement/Threads/Schedules.antt =====
-- Calls of `settle` in any number of threads, under any schedule.
use upi_w_o_internet.Common.{ℕ, ◌+◌, ◌≤◌, ◌<◌, String, ◌≡◌, refl, List, [], ◌∷◌, All, length, arith}
use upi_w_o_internet.Common.Int.{ℤ, pos, half64, ◌≤ℤ◌}
use upi_w_o_internet.Model.Sqlite.{Sqlite}
use upi_w_o_internet.Model.Tables.{Store}
use upi_w_o_internet.Model.Documented.{IsSqlite}
use upi_w_o_internet.Model.Ledger.{IsLedger}
use upi_w_o_internet.Service.Settlement.{Request}
use upi_w_o_internet.Service.Settlement.Locking.{at_rest}
use upi_w_o_internet.Service.Settlement.Once.{HasLog}
use upi_w_o_internet.Service.Settlement.Threads.{callers, interleave, settle_rounds, settle_thread}
use upi_w_o_internet.Service.Settlement.Threads.Keeping.{
  returned, returns, IsSafe, interleave-keeps,
}
use upi_w_o_internet.Service.Settlement.Threads.Sound.{logged, AllSpare, IsSound, IsSound-weaken}
use upi_w_o_internet.Service.Settlement.Threads.Invariant.{Inv, held, settle_thread-Keeps}

module _ (q : Sqlite) (laws : IsSqlite q) (amount : ℕ) where
  open q use {Db}
  open laws use {view}

  callers-IsSafe :
      (h : String) (n : ℕ) (rs : List (Request × (ℕ → ℤ)))
      → All (λ c. c.0.instruction.amount ≤ℤ pos amount) rs
      → All (IsSafe (Inv q laws amount h) (held q laws amount h) h n) (callers q rs)
  callers-IsSafe h n [] bounded = tt
  callers-IsSafe h n ((r, now) ∷ rs) bounded =
      (settle_thread-Keeps q laws amount h r bounded.0 now n, callers-IsSafe h n rs bounded.1)

  logged-le : (h : String) (s : Store) → logged h s ≤ 1
  logged-le h s = ground arith

  -- No call has returned at the start.
  returns-callers : (h : String) (rs : List (Request × (ℕ → ℤ))) → returns h (callers q rs) ≡ 0
  unfolding returned settle_thread settle_rounds
  returns-callers h [] = refl
  returns-callers h ((r, now) ∷ rs) = ground (arith, returns-callers h rs)

  module _ (rs : List (Request × (ℕ → ℤ))) (ns : List ℕ) (s : Store) (d : Db)
      (bounded : All (λ c. c.0.instruction.amount ≤ℤ pos amount) rs) (e : view d ≡ at_rest s)
      (ledger : IsLedger s.accounts) (spare : AllSpare amount (length ns) s.accounts)
      (log : HasLog s) (ids : s.sequence + length ns < half64) where
    starts : IsSound amount (length ns) (view d)
    starts = rw e (record { rests = refl; ledger = ledger; spare = spare; log = log; ids = ids })

    -- Calls of settle in any number of threads, under any schedule of their sections, make no
    -- balance negative, double no account, and leave no SQL transaction open and the log in order,
    -- with no packet hash twice in it; if the amounts have a bound, every balance leaves room for as
    -- many payments of that bound as there are turns, and as many ids are left; on a sound ledger,
    -- with no SQL transaction open and the log in order.
    pub interleave-IsSound :
        let d' = (interleave ns (callers q rs, d)).1 in
        (view d' ≡ at_rest (view d').current)
        × IsLedger (view d').current.accounts
        × HasLog (view d').current
    interleave-IsSound =
        let keeps =
          interleave-keeps (Inv q laws amount "") (held q laws amount "")
            (λ n d'. IsSound-weaken amount n (view d')) "" ns (callers q rs) d
            (callers-IsSafe "" (length ns) rs bounded) starts in
        let i = keeps.0 in (i.rests, i.ledger, i.log)

    -- Of the calls of settle for one packet hash, in any number of threads and under any schedule of
    -- their sections, at most one returns a transaction, and none does if the hash was in the log;
    -- if the amounts have a bound, every balance leaves room for as many payments of that bound as
    -- there are turns, and as many ids are left; on a sound ledger, with no SQL transaction open and
    -- the log in order.
    pub interleave_once :
        (h : String) → returns h (interleave ns (callers q rs, d)).0 + logged h s ≤ 1
    interleave_once h =
        let d'' = (interleave ns (callers q rs, d)).1 in
        let (i, grows) =
          interleave-keeps (Inv q laws amount h) (held q laws amount h)
            (λ n d'. IsSound-weaken amount n (view d')) h ns (callers q rs) d
            (callers-IsSafe h (length ns) rs bounded) starts in
        let at_start = rw e at grows in
        omega (arith, at_start, returns-callers h rs, logged-le h (view d'').current)
