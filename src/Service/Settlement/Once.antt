-- ===== src/Service/Settlement/Once.antt =====
-- The log of transactions: every packet hash stands in it once, and its ids rise.
use text.Mathlib.TextEquality.{eq_iff}
use upi_w_o_internet.Common.{
  length, ◌+◌, ℕ, suc, ◌<◌, ◌≤◌, String, ◌≡◌, refl, sym, ◌∙◌, true, false, ◌||◌, List, [], ◌∷◌,
  ◌++◌, arith,
}
use upi_w_o_internet.Common.Int.{ℤ, pos, half64}
use upi_w_o_internet.Common.Result.{Result, ok, err, Exception, runtime_error}
use upi_w_o_internet.Common.Text.{c_str, str_eq, str_eq_refl}
use upi_w_o_internet.Model.Records.{Account, Transaction, Status, settled, rejected}
use upi_w_o_internet.Model.Sqlite.{Sqlite}
use upi_w_o_internet.Model.Tables.{Tables, Store, TransactionRow, has_hash}
use upi_w_o_internet.Model.Documented.{IsSqlite}
use upi_w_o_internet.Model.Views.{stored_row, save_failure}
use upi_w_o_internet.Service.Settlement.{Request, new_transaction, settle}
use upi_w_o_internet.Service.Settlement.Spec.{post, settle_spec, settle_spec-cases}
use upi_w_o_internet.Service.Settlement.Refinement.{at_rest, HasRoom, settle-refines}

-- The ids rise strictly from above `lo` up to `hi` at most, and no hash stands twice.
abbrev pub IsLog : ℕ → ℕ → List TransactionRow → Type 0
IsLog lo hi [] = lo ≤ hi
IsLog lo hi (t ∷ ts) = (lo < t.id) × (has_hash t.packet_hash ts ≡ false) × IsLog t.id hi ts

-- The log of a store goes up to its sequence.
abbrev pub HasLog : Store → Type 0
HasLog s = IsLog 0 s.sequence s.transactions

pub has_hash-append :
    (h : String) (ts : List TransactionRow) (t : TransactionRow)
    → has_hash h (ts ++ t ∷ []) ≡ (has_hash h ts || str_eq t.packet_hash h)
has_hash-append h [] t = ground arith
has_hash-append h (x ∷ ts) t = ground (arith, has_hash-append h ts t)

append-IsLog :
    (lo hi : ℕ) (ts : List TransactionRow) (t : TransactionRow)
    → IsLog lo hi ts
    → has_hash t.packet_hash ts ≡ false
    → IsLog lo (suc hi) (ts ++ record t { id = suc hi } ∷ [])
append-IsLog lo hi [] t h new = (omega arith, refl, omega arith)
append-IsLog lo hi (x ∷ ts) t h new = ground (
  arith,
  eq_iff x.packet_hash t.packet_hash,
  eq_iff t.packet_hash x.packet_hash,
  has_hash-append x.packet_hash ts (record t { id = suc hi }),
  append-IsLog x.id hi ts t h.2,
)

pub post-HasLog :
    (r : Request) (at : ℤ) (status : Status) (accounts : List Account) (s : Store)
    → HasLog s
    → HasLog (post r at status accounts s).1
unfolding post
post-HasLog r at status accounts s h =
    ground
      (arith, append-IsLog 0 s.sequence s.transactions (stored_row (new_transaction r at status)) h)

post-known :
    (r : Request) (at : ℤ) (status : Status) (accounts : List Account) (s : Store)
    → has_hash (c_str r.packet_hash) s.transactions ≡ true
    → post r at status accounts s ≡ (err (runtime_error save_failure), s)
unfolding post
post-known r at status accounts s old = rw old refl

-- What a successful outcome leaves in the log.
abbrev Logs : String → Result Transaction × Store → Type 0
Logs h (ok tx, s) = has_hash h s.transactions ≡ true
Logs h (err e, s) = Unit

post-Logs :
    (r : Request) (at : ℤ) (status : Status) (accounts : List Account) (s : Store)
    → Logs (c_str r.packet_hash) (post r at status accounts s)
unfolding post
post-Logs r at status accounts s = ground (
  arith,
  has_hash-append (c_str r.packet_hash) s.transactions
      (record (stored_row (new_transaction r at status)) { id = suc s.sequence }),
  str_eq_refl (c_str r.packet_hash),
)

settle_spec-Logs :
    (r : Request) (at : ℤ) (s : Store) → Logs (c_str r.packet_hash) (settle_spec r at s)
settle_spec-Logs r at s =
    settle_spec-cases r at s (Logs (c_str r.packet_hash)) (λ e. tt)
      (post-Logs r at rejected s.accounts s)
      (λ sender receiver es er p c. post-Logs r at settled _ s)

pub settle_spec-known :
    (r : Request) (at : ℤ) (s : Store)
    → has_hash (c_str r.packet_hash) s.transactions ≡ true
    → (e : Exception) × (settle_spec r at s ≡ (err e, s))
settle_spec-known r at s old =
    settle_spec-cases r at s (λ end. (e : Exception) × (end ≡ (err e, s))) (λ e. (e, refl))
      (_, post-known r at rejected s.accounts s old)
      (λ sender receiver es er p c. (_, post-known r at settled _ s old))

settle_spec-logged :
    (r : Request) (at : ℤ) (s : Store) (tx : Transaction)
    → (settle_spec r at s).0 ≡ ok tx
    → has_hash (c_str r.packet_hash) (settle_spec r at s).1.transactions ≡ true
settle_spec-logged r at s tx h = ground (arith, settle_spec-Logs r at s)

post_keeps-has_hash :
    (h : String) (r : Request) (at : ℤ) (status : Status) (accounts : List Account) (s : Store)
    → has_hash h s.transactions ≡ true
    → has_hash h (post r at status accounts s).1.transactions ≡ true
unfolding post
post_keeps-has_hash h r at status accounts s known = ground (
  arith,
  has_hash-append h s.transactions
      (record (stored_row (new_transaction r at status)) { id = suc s.sequence }),
)

-- A hash in the log stays there.
settle_spec_keeps-has_hash :
    (h : String) (r : Request) (at : ℤ) (s : Store)
    → has_hash h s.transactions ≡ true
    → has_hash h (settle_spec r at s).1.transactions ≡ true
settle_spec_keeps-has_hash h r at s known =
    settle_spec-cases r at s (λ end. has_hash h end.1.transactions ≡ true) (λ e. known)
      (post_keeps-has_hash h r at rejected s.accounts s known)
      (λ sender receiver es er p c. post_keeps-has_hash h r at settled _ s known)

pub sequence-post-le :
    (r : Request) (at : ℤ) (status : Status) (accounts : List Account) (s : Store)
    → (post r at status accounts s).1.sequence ≤ suc s.sequence
unfolding post
sequence-post-le r at status accounts s = ground arith

-- At most one id is used.
sequence-settle_spec-le :
    (r : Request) (at : ℤ) (s : Store) → (settle_spec r at s).1.sequence ≤ suc s.sequence
sequence-settle_spec-le r at s =
    settle_spec-cases r at s (λ end. end.1.sequence ≤ suc s.sequence) (λ x. omega arith)
      (sequence-post-le r at rejected s.accounts s)
      (λ sender receiver es er p c. sequence-post-le r at settled _ s)

pub settle_spec-HasLog :
    (r : Request) (at : ℤ) (s : Store) → HasLog s → HasLog (settle_spec r at s).1
settle_spec-HasLog r at s log =
    settle_spec-cases r at s (λ end. HasLog end.1) (λ x. log)
      (post-HasLog r at rejected s.accounts s log)
      (λ sender receiver es er p c. post-HasLog r at settled _ s log)

module _ (q : Sqlite) (laws : IsSqlite q) where
  open q use {Db}
  open laws use {view}

  -- Settling keeps the log in order: a hash never stands twice in it and the ids rise up to the
  -- sequence, on every branch, if no transaction is open and an id is left.
  pub settle-HasLog :
      (r : Request) (now : ℕ → ℤ) (s : Store) (d : Db)
      → view d ≡ at_rest s
      → HasRoom s
      → HasLog s
      → HasLog (view (settle q r now d).1).current
  settle-HasLog r now s d e room log =
      rw (settle-refines q laws r now s d e room).1 (settle_spec-HasLog r (now 1) s log)

  -- Calls of `settle` that follow one another, each with the clock that it reads.
  unfoldable pub settle_all : List (Request × (ℕ → ℤ)) → Db → Db
  settle_all [] d = d
  settle_all ((r, now) ∷ rs) d = settle_all rs (settle q r now d).1

  -- The log still has the hash, and each call has used an id at most.
  abbrev Still : String → ℕ → Tables → Type 0
  Still h n t =
      (s : Store) × (t ≡ at_rest s) × (has_hash h s.transactions ≡ true) × (s.sequence ≤ n)

  settle_all-Still :
      (h : String) (rs : List (Request × (ℕ → ℤ))) (s : Store) (d : Db)
      → view d ≡ at_rest s
      → s.sequence + length rs < half64
      → has_hash h s.transactions ≡ true
      → Still h (s.sequence + length rs) (view (settle_all rs d))
  unfolding settle_all
  settle_all-Still h [] s d e room known = (s, e, known, omega arith)
  settle_all-Still h ((r, now) ∷ rs) s d e room known =
      let p = settle-refines q laws r now s d e (omega (arith, room)) in
      let s' = (settle_spec r (now 1) s).1 in
      let used = sequence-settle_spec-le r (now 1) s in
      let (s'', at, still, bound) =
        settle_all-Still h rs s' (settle q r now d).1 p.1 (omega (arith, room, used))
          (settle_spec_keeps-has_hash h r (now 1) s known) in
      (s'', at, still, omega (arith, bound, used))

  -- A packet is settled or rejected at most once: once `settle` has returned a transaction, a call
  -- with the same hash throws and leaves the tables as they are, whatever the rest of the request,
  -- and whatever other calls of `settle` there were in between; if no transaction was open at first
  -- and an id was left for every call.
  pub settle-once :
      (r r' : Request) (now now' : ℕ → ℤ) (others : List (Request × (ℕ → ℤ))) (s : Store) (d : Db)
      (tx : Transaction)
      → view d ≡ at_rest s
      → suc (suc s.sequence) + length others < half64
      → (settle q r now d).0 ≡ ok tx
      → c_str r'.packet_hash ≡ c_str r.packet_hash
      → let d' = settle_all others (settle q r now d).1 in
        ((e : Exception) × ((settle q r' now' d').0 ≡ err e))
        × (view (settle q r' now' d').1 ≡ view d')
  settle-once r r' now now' others s d tx e room done same =
      let p = settle-refines q laws r now s d e (omega (arith, room)) in
      let s' = (settle_spec r (now 1) s).1 in
      let used = sequence-settle_spec-le r (now 1) s in
      let logged = settle_spec-logged r (now 1) s tx (sym p.0 ∙ done) in
      let (s'', at, still, bound) =
        settle_all-Still (c_str r.packet_hash) others s' (settle q r now d).1 p.1
          (omega (arith, room, used)) logged in
      let (x, known) = settle_spec-known r' (now' 1) s'' (rw same still) in
      let again = rw known at (
        settle-refines q laws r' now' s'' (settle_all others (settle q r now d).1) at
          (omega (arith, room, used, bound))) in
      ((x, again.0), again.1 ∙ sym at)

-- How a settlement ends: with an exception and nothing changed, or with the next id used.
abbrev pub Ends : Store → Result Transaction × Store → Type 0
Ends s (err e, s') = s' ≡ s
Ends s (ok tx, s') = (tx.id ≡ pos (suc s.sequence)) × (s'.sequence ≡ suc s.sequence)

post-Ends :
    (r : Request) (at : ℤ) (status : Status) (accounts : List Account) (s : Store)
    → Ends s (post r at status accounts s)
unfolding post
post-Ends r at status accounts s = ground arith

pub settle_spec-Ends : (r : Request) (at : ℤ) (s : Store) → Ends s (settle_spec r at s)
settle_spec-Ends r at s =
    settle_spec-cases r at s (Ends s) (λ e. refl) (post-Ends r at rejected s.accounts s)
      (λ sender receiver es er p c. post-Ends r at settled _ s)
