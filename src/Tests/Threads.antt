-- ===== src/Tests/Threads.antt =====
-- Calls of `settle` in several threads, on the demo accounts.
use upi_w_o_internet.Common.{ℕ, ◌+◌, ◌≤◌, ◌≡◌, refl, List, [], ◌∷◌, get_elem?, arith}
use upi_w_o_internet.Common.Int.{ℤ, pos, ◌+ℤ◌, ◌-ℤ◌, add64, sub64, wrap64}
use upi_w_o_internet.Common.Text.{c_str}
use upi_w_o_internet.Model.Database
use upi_w_o_internet.Model.AccountRepository
use upi_w_o_internet.Model.TransactionRepository
use upi_w_o_internet.Model.Tables.{demo_accounts}
use upi_w_o_internet.Model.Ledger.{total, IsLedger}
use upi_w_o_internet.Service.Settlement.{Request, write_settlement, locked_section}
use upi_w_o_internet.Service.Settlement.Locking.{at_rest}
use upi_w_o_internet.Service.Settlement.Once.{HasLog}
use upi_w_o_internet.Service.Settlement.Threads.{
  callers, interleave, turn, settle_thread, settle_rounds,
}
use upi_w_o_internet.Service.Settlement.Threads.Keeping.{returns}
use upi_w_o_internet.Service.Settlement.Threads.Schedules.{interleave-IsSound, interleave_once}
use upi_w_o_internet.Service.Settlement.Threads.Sound.{logged}
use upi_w_o_internet.Service.Settlement.Threads.Turns.{turns, Finishes, interleave-Finishes}
use upi_w_o_internet.Tests.MemoryDb.{memory_db, memory_db-IsSqlite}
use upi_w_o_internet.Tests.Ledger.{
  request, alice_to_bob, clock, demo_memory, demo_store, view_demo, demo_accounts-IsLedger,
}
use upi_w_o_internet.Tests.Overlap.{alice_to_carol}

abbrev two_calls : List (Request × (ℕ → ℤ))
two_calls = (alice_to_bob, clock) ∷ (alice_to_carol, clock) ∷ []

-- Both read, then both write: what the first debit took is back.
abbrev both_read : List ℕ
both_read = 0 ∷ 0 ∷ 1 ∷ 1 ∷ 0 ∷ 1 ∷ []

both_read_run :
    total
      (interleave both_read (callers memory_db two_calls, demo_memory)).1.tables.current.accounts
    ≡ total demo_accounts +ℤ pos 10000
unfolding interleave turn settle_thread settle_rounds locked_section write_settlement
    Database.execute AccountRepository.find_by_id AccountRepository.save TransactionRepository.save
    c_str add64 sub64 wrap64 ◌+ℤ◌ ◌-ℤ◌
both_read_run = refl

interleave-IsSound_example :
    let view = (memory_db-IsSqlite).view in
    let d' = (interleave both_read (callers memory_db two_calls, demo_memory)).1 in
    (view d' ≡ at_rest (view d').current)
    × IsLedger (view d').current.accounts
    × HasLog (view d').current
unfolding ◌+ℤ◌
interleave-IsSound_example =
    interleave-IsSound memory_db memory_db-IsSqlite 10000 two_calls both_read demo_store demo_memory
      (ground arith) view_demo demo_accounts-IsLedger (ground arith) (omega arith) (omega arith)

abbrev same_hash : List (Request × (ℕ → ℤ))
same_hash = (alice_to_bob, clock) ∷ (request "carol@demo" "bob@demo", clock) ∷ []

interleave_once_example :
    returns "h1" (interleave both_read (callers memory_db same_hash, demo_memory)).0
      + logged "h1" demo_store
    ≤ 1
unfolding ◌+ℤ◌
interleave_once_example =
    interleave_once memory_db memory_db-IsSqlite 10000 same_hash both_read demo_store demo_memory
      (ground arith) view_demo demo_accounts-IsLedger (ground arith) (omega arith) (omega arith)
      "h1"

abbrev many_turns : List ℕ
many_turns = 0 ∷ 1 ∷ 0 ∷ 0 ∷ 0 ∷ 1 ∷ 0 ∷ 0 ∷ 0 ∷ 0 ∷ 0 ∷ []

interleave-Finishes_example :
    Finishes alice_to_bob
      (get_elem? (interleave many_turns (callers memory_db two_calls, demo_memory)).0 0)
unfolding turns
interleave-Finishes_example =
    interleave-Finishes memory_db two_calls many_turns demo_memory 0 alice_to_bob clock refl
      (omega arith)
