-- ===== src/Checks/Phase3/Claims.antt =====
-- service/verify_phase3.cpp, the first test.
use upi_w_o_internet.Common.{
  ℕ, zero, suc, ◌+◌, String, ◌≡◌, refl, ap, ◌∙◌, some, none, true, false, arith,
}
use upi_w_o_internet.Common.Int.{ℤ}
use upi_w_o_internet.Common.Map.{lookup, insert, lookup-insert_self}
use upi_w_o_internet.Service.Idempotency.{Seen, claim, new_seen}
use upi_w_o_internet.Checks.Verdict.{pass}
use upi_w_o_internet.Checks.Phase3.{race, test_idempotency}

claim-held :
    (now t : ℤ) (h : String) (s : Seen) → lookup h s.seen ≡ some t → claim now h s ≡ (false, s)
unfolding claim
claim-held now t h s held = rw (held, claim) refl

claim-new :
    (now : ℤ) (h : String) (s : Seen)
    → lookup h s.seen ≡ none
    → claim now h s ≡ (true, record s { seen = insert h now s.seen })
unfolding claim
claim-new now h s new = rw (new, claim) refl

-- Once the hash is held every thread loses.
race-held :
    (now : ℕ → ℤ) (h : String) (k : ℕ) (s : Seen) (won lost : ℕ) (t : ℤ)
    → lookup h s.seen ≡ some t
    → race now h k s (won, lost) ≡ (won, lost + k)
unfolding race
race-held now h zero s won lost t held = ground arith
race-held now h (suc k) s won lost t held =
    rw (claim-held (now k) t h s held)
      (race-held now h k s won (suc lost) t held ∙ ap (λ n. (won, n)) (omega arith))

-- Of any number of threads that claim a hash that nobody holds, one wins and the others lose,
-- whatever the clock reads.
pub race-new :
    (now : ℕ → ℤ) (h : String) (k : ℕ) (s : Seen)
    → lookup h s.seen ≡ none
    → race now h (suc k) s (0, 0) ≡ (1, k)
unfolding race
race-new now h k s new = rw (claim-new (now k) h s new) (
    race-held now h k (record s { seen = insert h (now k) s.seen }) 1 0 (now k)
      (lookup-insert_self h (now k) s.seen)
    ∙ ap (λ n. (1, n)) (omega arith))

-- The first test of the program passes, whatever the clock reads.
pub test_idempotency-pass : (now : ℕ → ℤ) → test_idempotency now ≡ pass
unfolding test_idempotency lookup
test_idempotency-pass now =
    rw (race-new now "hash_race_condition_test_123456" 99 new_seen refl) refl
