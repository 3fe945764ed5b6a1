-- ===== src/Checks/Phase3/Payments.antt =====
-- service/verify_phase3.cpp, the second test: payments that follow one another.
use Prim.Native.String.{◌++◌ as ◌<>◌}
use text.Mathlib.TextEquality.{eq_iff}
use upi_w_o_internet.Common.{
  ℕ, suc, ◌+◌, ◌*◌, ◌<◌, String, ◌≡◌, ◌≢◌, refl, sym, subst, ap, ◌∙◌, true, false, some, List, [],
  ◌∷◌, ◌++◌, All, length, if◌then◌else◌, arith,
}
use upi_w_o_internet.Common.Int.{ℤ, pos, ◌+ℤ◌, ◌-ℤ◌, ◌≤ℤ◌, int_laws, half64, sub64, sub64-eq}
use upi_w_o_internet.Common.Result.{ok, pure, ◌>>=◌}
use upi_w_o_internet.Common.Text.{c_str, str_eq, ≢→str_eq}
use upi_w_o_internet.Model.Records.{Account, settled}
use upi_w_o_internet.Model.Sqlite.{Sqlite}
use upi_w_o_internet.Model.Tables.{Store, TransactionRow, find_account, has_hash, append_row}
use upi_w_o_internet.Model.Documented.{IsSqlite}
use upi_w_o_internet.Model.Views.{
  Yields, find_by_id-Yields, catch-Yields, stored_account, stored_row,
}
use upi_w_o_internet.Model.Ledger.{IsLedger}
use upi_w_o_internet.Service.Settlement.{Request, settle, new_transaction}
use upi_w_o_internet.Service.Settlement.Spec.{transferred, settle_spec, settle_spec-covered}
use upi_w_o_internet.Service.Settlement.Refinement.{at_rest, HasRoom, settle-refines}
use upi_w_o_internet.Service.Settlement.Conservation.{Fits, settle_spec-total, settle_spec-moves}
use upi_w_o_internet.Service.Settlement.Once.{has_hash-append}
use upi_w_o_internet.Checks.Phase3.{one_rupee, pay_once, pay_all, balance_of, test_settlement}
use upi_w_o_internet.Checks.Verdict.{pass}

spent-eq : (x : ℤ) → sub64 x (x -ℤ pos 1000) ≡ pos 1000
spent-eq x = sub64-eq x (x -ℤ pos 1000) (omega int_laws, omega int_laws) ∙ omega int_laws

earned-eq : (y : ℤ) → sub64 (y +ℤ pos 1000) y ≡ pos 1000
earned-eq y = sub64-eq (y +ℤ pos 1000) y (omega int_laws, omega int_laws) ∙ omega int_laws

alice_not_bob : c_str "alice@demo" ≢ c_str "bob@demo"
unfolding c_str
alice_not_bob e = ground (arith, eq_iff "alice@demo" "bob@demo")

-- The account under a key, and its balance.
pub record Has (key : String) (balance : ℤ) (s : Store) : Type 0 where
  pub account : Account
  pub is_there : find_account (c_str key) s.accounts ≡ some account
  pub has : account.balance ≡ balance

module _ (to_string : ℕ → String) where
  -- The key of the payment of a thread, as SQLite takes it.
  abbrev pub hash : ℕ → String
  hash i = c_str ("hash_multi_txn_" <> to_string i)

  abbrev pub Distinct : List ℕ → Type 0
  Distinct [] = Unit
  Distinct (i ∷ others) = All (λ j. hash i ≢ hash j) others × Distinct others

  abbrev pub New : List ℕ → Store → Type 0
  New threads s = All (λ i. has_hash (hash i) s.transactions ≡ false) threads

  -- Tables on which the threads can all pay.
  pub record Ready (threads : List ℕ) (s : Store) (x y : ℤ) : Type 0 where
    pub ledger : IsLedger s.accounts
    pub fits : Fits s.accounts
    pub alice : Has "alice@demo" x s
    pub bob : Has "bob@demo" y s
    pub room : s.sequence + length threads < half64
    pub new : New threads s

  abbrev request : ℕ → Request
  request i = record {
    instruction = one_rupee;
    packet_hash = "hash_multi_txn_" <> to_string i;
    bridge_node_id = "bridge-1";
    hop_count = pos 1;
  }

  has_hash-other :
      (i : ℕ) (others : List ℕ) (ts : List TransactionRow) (t : TransactionRow)
      → t.packet_hash ≡ hash i
      → All (λ j. hash i ≢ hash j) others
      → All (λ j. has_hash (hash j) ts ≡ false) others
      → All (λ j. has_hash (hash j) (ts ++ t ∷ []) ≡ false) others
  has_hash-other i [] ts t e different new = tt
  has_hash-other i (j ∷ others) ts t e different new = (
    rw (has_hash-append (hash j) ts t, new.0, e) (≢→str_eq (hash i) (hash j) different.0),
    has_hash-other i others ts t e different.1 new.1,
  )

  module _ (i : ℕ) (others : List ℕ) (s : Store) (x y : ℤ) (at : ℤ)
      (ready : Ready (i ∷ others) s x y) (covered : pos 100 ≤ℤ x) where
    abbrev after : Store
    after = (settle_spec (request i) at s).1

    enough : pos 100 ≤ℤ ready.alice.account.balance
    enough = rw ready.alice.has covered

    written : settle_spec (request i) at s ≡ (
      ok (record (new_transaction (request i) at settled) { id = pos (suc s.sequence) }),
      append_row (stored_row (new_transaction (request i) at settled)) (record s {
        accounts = transferred (pos 100) ready.alice.account ready.bob.account s.accounts;
      }),
    )
    unfolding c_str
    written =
        settle_spec-covered (request i) at s ready.alice.account ready.bob.account
          ready.alice.is_there ready.bob.is_there (omega arith) enough ready.new.0

    moves :
        (key : String)
        → find_account key after.accounts ≡ (
            if str_eq (c_str "bob@demo") key
            then some (
                stored_account
                  (record ready.bob.account { balance = ready.bob.account.balance +ℤ pos 100 }))
            else if str_eq (c_str "alice@demo") key
            then some (
                stored_account
                  (record ready.alice.account { balance = ready.alice.account.balance -ℤ pos 100 }))
            else find_account key s.accounts)
    unfolding c_str
    moves =
        settle_spec-moves (request i) at s ready.ledger ready.fits ready.alice.account
          ready.bob.account alice_not_bob ready.alice.is_there ready.bob.is_there (omega arith)
          enough ready.new.0

    has_alice : Has "alice@demo" (x -ℤ pos 100) after
    unfolding c_str
    has_alice = record {
      account = _;
      is_there = moves "alice@demo";
      has = ap (λ b. b -ℤ pos 100) ready.alice.has;
    }

    has_bob : Has "bob@demo" (y +ℤ pos 100) after
    unfolding c_str
    has_bob = record {
      account = _;
      is_there = moves "bob@demo";
      has = ap (λ b. b +ℤ pos 100) ready.bob.has;
    }

    after-Ready :
        All (λ j. hash i ≢ hash j) others → Ready others after (x -ℤ pos 100) (y +ℤ pos 100)
    after-Ready different =
        let kept = settle_spec-total (request i) at s ready.ledger ready.fits alice_not_bob in
        record {
          ledger = kept.1;
          fits = rw kept.0 ready.fits;
          alice = has_alice;
          bob = has_bob;
          room = omega (arith, ready.room, ap (λ end. end.1.sequence) written);
          new =
              subst (λ end. New others end.1) (sym written)
                (has_hash-other i others s.transactions _ refl different ready.new.1);
        }

  module _ (q : Sqlite) (laws : IsSqlite q) (now : ℕ → ℕ → ℤ) where
    open q use {Db}
    open laws use {view}

    pay_once-Yields :
        (i : ℕ) (others : List ℕ) (s : Store) (x y : ℤ) (d : Db)
        → view d ≡ at_rest s
        → (ready : Ready (i ∷ others) s x y) → (covered : pos 100 ≤ℤ x)
        → Yields q laws
            (pay_once q to_string now i d)
            (ok true)
            (at_rest (after i others s x y (now i 1) ready covered))
    unfolding pay_once
    pay_once-Yields i others s x y d e ready covered =
        let room : HasRoom s = omega (arith, ready.room) in
        let p = settle-refines q laws (request i) (now i) s d e room in
        let done = p.0 ∙ ap (λ end. end.0) (written i others s x y (now i 1) ready covered) in
        catch-Yields q laws (settle q (request i) (now i) >>= λ tx. pure true) (λ x. pure false) d
          true (rw (done, ◌>>=◌) (refl, p.1))

    same_Ready : (s : Store) (x x' y y' : ℤ) → x ≡ x' → y ≡ y' → Ready [] s x y → Ready [] s x' y'
    same_Ready s x x' y y' ex ey ready =
        subst (λ b. Ready [] s x' b) ey (subst (λ a. Ready [] s a y) ex ready)

    pay_all-Yields :
        (threads : List ℕ) (s : Store) (x y : ℤ) (d : Db) (completed exhausted : ℕ)
        → view d ≡ at_rest s
        → Ready threads s x y
        → Distinct threads
        → pos (100 * length threads) ≤ℤ x
        → (s' : Store) × Ready [] s'
            (x -ℤ pos (100 * length threads))
            (y +ℤ pos (100 * length threads))
          × Yields q laws
              (pay_all q to_string now threads (completed, exhausted) d)
              (ok (completed + length threads, exhausted))
              (at_rest s')
    unfolding pay_all
    pay_all-Yields [] s x y d completed exhausted e ready distinct covered = (
      s,
      same_Ready s x (x -ℤ pos 0) y (y +ℤ pos 0) (omega int_laws) (omega int_laws) ready,
      (ap (λ n. ok (n, exhausted)) (omega arith), e),
    )
    pay_all-Yields (i ∷ others) s x y d completed exhausted e ready distinct covered =
        let first : pos 100 ≤ℤ x = omega (int_laws, covered) in
        let once = pay_once-Yields i others s x y d e ready first in
        let (s', ready', rest) =
          pay_all-Yields others (after i others s x y (now i 1) ready first) (x -ℤ pos 100)
            (y +ℤ pos 100) (pay_once q to_string now i d).1 (suc completed) exhausted once.1
            (after-Ready i others s x y (now i 1) ready first distinct.0) distinct.1
            (omega (int_laws, covered)) in
        (
          s',
          same_Ready s' _ _ _ _ (omega int_laws) (omega int_laws) ready',
          rw (once.0, ◌>>=◌) (rest.0 ∙ ap (λ n. ok (n, exhausted)) (omega arith), rest.1),
        )

    balance_of-Yields :
        (key : String) (n : ℤ) (s : Store) (d : Db)
        → view d ≡ at_rest s
        → Has key n s
        → Yields q laws (balance_of q to_string now key d) (ok n) (at_rest s)
    unfolding balance_of
    balance_of-Yields key n s d e h =
        let p = find_by_id-Yields q laws key d in
        let found : find_account (c_str key) (view d).current.accounts ≡ some h.account =
          rw e h.is_there in
        rw (p.0 ∙ ap ok found, ◌>>=◌) (ap ok h.has, p.1 ∙ e)

    -- Ten payments of a rupee that follow one another in any order all complete, and the program
    -- reports that alice has Rs 10 less and bob Rs 10 more; if both are found and alice has that much, on
    -- a sound ledger whose sum fits 64 bits, with the ten hashes different and none in the log, with no
    -- SQL transaction open and ten ids left.
    pub test_settlement-pass :
        (order : List ℕ) (s : Store) (x y : ℤ) (d : Db)
        → view d ≡ at_rest s
        → length order ≡ 10
        → Distinct order
        → Ready order s x y
        → pos 1000 ≤ℤ x
        → (test_settlement q to_string now order d).0
          ≡ ok (record {
            completed = 10;
            exhausted = 0;
            alice_delta = pos 1000;
            bob_delta = pos 1000;
            outcome = pass;
          })
    unfolding test_settlement c_str
    test_settlement-pass order s x y d e ten distinct ready covered =
        let alice = balance_of-Yields "alice@demo" x s d e ready.alice in
        let d₁ = (balance_of q to_string now "alice@demo" d).1 in
        let bob = balance_of-Yields "bob@demo" y s d₁ alice.1 ready.bob in
        let d₂ = (balance_of q to_string now "bob@demo" d₁).1 in
        let (s', left, paid) =
          pay_all-Yields order s x y d₂ 0 0 bob.1 ready distinct (omega (int_laws, covered, ten)) in
        let d₃ = (pay_all q to_string now order (0, 0) d₂).1 in
        let alice' = balance_of-Yields "alice@demo" _ s' d₃ paid.1 left.alice in
        let d₄ = (balance_of q to_string now "alice@demo" d₃).1 in
        let bob' = balance_of-Yields "bob@demo" _ s' d₄ alice'.1 left.bob in
        rw (alice.0, ◌>>=◌)
          (rw (bob.0, ◌>>=◌)
            (rw (paid.0, ◌>>=◌)
              (rw (alice'.0, ◌>>=◌)
                (rw (bob'.0, ◌>>=◌) (rw ten (rw (spent-eq x, earned-eq y) refl))))))
