-- ===== src/Tests/Payments.antt =====
-- The second test of verify_phase3.cpp on the demo accounts, and the rounds of one settlement.
use Prim.Native.String.{◌++◌ as ◌<>◌}
use upi_w_o_internet.Common.{
  ℕ, zero, suc, String, Bool, ◌≡◌, ◌≢◌, refl, ap, true, false, List, [], ◌∷◌, ◌&&◌, All, inl, inr,
  Bool-cases, if◌then◌else◌, arith,
}
use upi_w_o_internet.Common.Int.{pos}
use upi_w_o_internet.Common.Result.{ok}
use upi_w_o_internet.Common.Text.{c_str, str_eq, str_eq_refl}
use upi_w_o_internet.Checks.Verdict.{pass}
use upi_w_o_internet.Checks.Phase3.{test_settlement}
use upi_w_o_internet.Checks.Phase3.Payments.{hash, Distinct, New, Ready, test_settlement-pass}
use upi_w_o_internet.Tests.MemoryDb.{memory_db, memory_db-IsSqlite}
use upi_w_o_internet.Tests.Ledger.{
  clock, demo_memory, demo_store, view_demo, demo_accounts-IsLedger, demo_accounts_total, alice,
  bob,
}

-- A number as so many strokes.
abbrev strokes : ℕ → String
strokes zero = ""
strokes (suc n) = "|" <> strokes n

abbrev order : List ℕ
order = 3 ∷ 0 ∷ 1 ∷ 9 ∷ 8 ∷ 2 ∷ 4 ∷ 7 ∷ 5 ∷ 6 ∷ []

unfoldable apart_from : ℕ → List ℕ → Bool
unfolding c_str
apart_from i [] = true
apart_from i (j ∷ others) =
    if str_eq (hash strokes i) (hash strokes j) then false else apart_from i others

unfoldable apart : List ℕ → Bool
apart [] = true
apart (i ∷ others) = apart_from i others && apart others

unequal : (a b : String) → str_eq a b ≡ false → a ≢ b
unequal a b h e = cc (ap (str_eq a) e, str_eq_refl a)

apart_from→All :
    (i : ℕ) (others : List ℕ)
    → apart_from i others ≡ true
    → All (λ j. hash strokes i ≢ hash strokes j) others
unfolding apart_from
apart_from→All i [] h = tt
apart_from→All i (j ∷ others) h = elim (Bool-cases (str_eq (hash strokes i) (hash strokes j))) [
  | inl equal ↦ cc
  | inr different ↦ (unequal _ _ different, apart_from→All i others (rw different at h))
]

apart→Distinct : (threads : List ℕ) → apart threads ≡ true → Distinct strokes threads
unfolding apart
apart→Distinct [] h = tt
apart→Distinct (i ∷ others) h = elim (Bool-cases (apart_from i others)) [
  | inl first ↦ (apart_from→All i others first, apart→Distinct others (rw first at h))
  | inr no_good ↦ cc
]

order-Distinct : Distinct strokes order
unfolding apart apart_from c_str
order-Distinct = apart→Distinct order refl

demo_store-New : (threads : List ℕ) → New strokes threads demo_store
demo_store-New [] = tt
demo_store-New (i ∷ others) = (refl, demo_store-New others)

order-Ready : Ready strokes order demo_store (pos 500000) (pos 100000)
unfolding c_str
order-Ready = record {
  ledger = demo_accounts-IsLedger;
  fits = demo_accounts_total;
  alice = record { account = alice; is_there = refl; has = refl };
  bob = record { account = bob; is_there = refl; has = refl };
  room = omega arith;
  new = demo_store-New order;
}

test_settlement-pass_example :
    (test_settlement memory_db strokes (λ i. clock) order demo_memory).0
    ≡ ok (record {
      completed = 10;
      exhausted = 0;
      alice_delta = pos 1000;
      bob_delta = pos 1000;
      outcome = pass;
    })
test_settlement-pass_example =
    test_settlement-pass strokes memory_db memory_db-IsSqlite (λ i. clock) order demo_store
      (pos 500000) (pos 100000) demo_memory view_demo refl order-Distinct order-Ready (omega arith)
