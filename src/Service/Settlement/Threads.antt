-- ===== src/Service/Settlement/Threads.antt =====
-- Calls of `settle` in several threads. Every call of a repository takes the connection's mutex, and
-- the update holds it throughout, so a call of `settle` is a sequence of sections, each with the mutex
-- held, and the threads may run between any two of them.
pub mod Alone
pub mod Keeping
pub mod Sections
pub mod Sound
pub mod Invariant
pub mod Schedules
pub mod Turns
use Prim.Native.String.{◌++◌ as ◌<>◌}
use upi_w_o_internet.Common.{
  ℕ, zero, suc, String, Option, none, some, List, [], ◌∷◌, ◌==◌, if◌then◌else◌, foldl,
}
use upi_w_o_internet.Common.Int.{ℤ, pos, leb_ℤ, ltb_ℤ}
use upi_w_o_internet.Common.Result.{
  Result, Action, Exception, ok, err, invalid_argument, runtime_error,
}
use upi_w_o_internet.Model.Records.{Account, Transaction}
use upi_w_o_internet.Model.Sqlite.{Sqlite}
use upi_w_o_internet.Model.AccountRepository
use upi_w_o_internet.Service.Settlement.{
  Request, max_attempts, debit, credit, record_rejected, locked_section,
}

-- What a thread has still to do: nothing, with the call's result or exception, or a section, which
-- changes the shared state, and what it does then on the state that the section met.
pub data Thread (D : Type 0) : Type 0 where
  finished : Result Transaction → Thread D
  section : (D → D) → (D → Thread D) → Thread D

-- Outside a section: an exception ends the call.
abbrev pub checked : {D A : Type 0} → Result A → (A → Thread D) → Thread D
checked (err e) k = finished (err e)
checked (ok a) k = k a

abbrev pub or_err : {A : Type 0} → Option A → Exception → Result A
or_err none e = err e
or_err (some a) e = ok a

-- An action as one section.
infixl 5 ◌>>=◌
abbrev pub ◌>>=◌ : {D A : Type 0} → Action D A → (A → Thread D) → Thread D
m >>= k = section (λ d. (m d).1) (λ d. checked (m d).0 k)

module _ (q : Sqlite) (r : Request) where
  open q use {Db}

  -- The end of a round: the result, an exception thrown again, or the next round.
  abbrev pub after_section : Thread Db → ℕ → Result Transaction → Thread Db
  after_section continue attempt (ok tx) = finished (ok tx)
  after_section continue attempt (err e) =
      if attempt == max_attempts then finished (err e) else continue

  -- The rest of a round, on the accounts that it has read.
  abbrev pub paying : Thread Db → ℕ → ℤ → Account → Account → Thread Db
  paying continue attempt now sender receiver =
      let amount = r.instruction.amount in
      if leb_ℤ amount (pos 0)
      then finished (err (invalid_argument "Amount must be positive"))
      else if ltb_ℤ sender.balance amount
      then (do tx ← record_rejected q r now; finished (ok tx))
      else (do
        end ← locked_section q r (debit amount sender) (credit amount receiver) now
        after_section continue attempt end)

  -- The loop of `settle`, with the rounds left.
  unfoldable pub settle_rounds : (ℕ → ℤ) → ℕ → ℕ → Thread Db
  settle_rounds now zero attempt = finished (err (runtime_error "Settlement failed unexpectedly"))
  settle_rounds now (suc left) attempt =
      let continue = settle_rounds now left (suc attempt) in
      let i = r.instruction in
      do
        sender_opt ← AccountRepository.find_by_id q i.sender_vpa
        checked (or_err sender_opt (invalid_argument ("Unknown sender VPA: " <> i.sender_vpa)))
            λ sender. do
              receiver_opt ← AccountRepository.find_by_id q i.receiver_vpa
              checked
                  (or_err receiver_opt
                    (invalid_argument ("Unknown receiver VPA: " <> i.receiver_vpa)))
                  λ receiver. paying continue attempt (now attempt) sender receiver

  unfoldable pub settle_thread : (ℕ → ℤ) → Thread Db
  settle_thread now = settle_rounds now max_attempts 1

-- A thread that runs with no other.
unfoldable pub run_alone : {D : Type 0} → Thread D → Action D Transaction
run_alone (finished r) d = (r, d)
run_alone (section write next) d = run_alone (next d) (write d)

-- A caller of `settle`, with what its thread has still to do.
pub record Caller (D : Type 0) : Type 0 where
  pub request : Request
  pub thread : Thread D

abbrev pub Calls : Type 0 → Type 0
Calls D = List (Caller D) × D

-- One section of the thread, if it has one left.
abbrev pub advance : {D : Type 0} → Thread D → D → Thread D × D
advance (finished r) d = (finished r, d)
advance (section write next) d = (next d, write d)

-- The turn of the `n`-th caller.
unfoldable pub turn : {D : Type 0} → ℕ → List (Caller D) → D → Calls D
turn n [] d = ([], d)
turn zero (c ∷ cs) d =
    let (t, d') = advance c.thread d in (record { request = c.request; thread = t } ∷ cs, d')
turn (suc n) (c ∷ cs) d = let (cs', d') = turn n cs d in (c ∷ cs', d')

-- The turns that the scheduler gives.
unfoldable pub interleave : {D : Type 0} → List ℕ → Calls D → Calls D
interleave [] s = s
interleave (n ∷ ns) (cs, d) = interleave ns (turn n cs d)

-- A thread for each request, with the clock that it reads.
abbrev pub callers : (q : Sqlite) → List (Request × (ℕ → ℤ)) → List (Caller q.Db)
callers q [] = []
callers q ((r, now) ∷ rs) = record { request = r; thread = settle_thread q r now } ∷ callers q rs
