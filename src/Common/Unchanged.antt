-- ===== src/Common/Unchanged.antt =====
-- Calls that leave the state as they found it, whether they return or throw, and rules for them.
use mathlib.Core.Path.{◌≡◌, refl, ◌∙◌}
use upi_w_o_internet.Common.Result.{Action, Result, ok, err, ◌>>=◌, lift, pure}

module _ {S A : Type 0} where
  unfoldable pub Unchanged : Action S A → Type 0
  Unchanged m = (s : S) → (m s).1 ≡ s

pub pure-Unchanged : (S : Type 0) {A : Type 0} (a : A) → Unchanged {S = S} (pure a)
unfolding Unchanged
pure-Unchanged S a s = refl

pub lift-Unchanged : (S : Type 0) {A : Type 0} (r : Result A) → Unchanged {S = S} (lift r)
unfolding Unchanged
lift-Unchanged S r s = refl

module _ {S A B : Type 0} where
  continue :
      (k : A → Action S B) (s : S) (end : Result A × S)
      → end.1 ≡ s
      → ((a : A) → Unchanged (k a))
      → (((λ _. end) >>= k) s).1 ≡ s
  unfolding Unchanged
  continue k s (ok a, now) same hk = hk a now ∙ same
  continue k s (err e, now) same hk = same

  pub bind-Unchanged :
      (m : Action S A) (k : A → Action S B)
      → Unchanged m
      → ((a : A) → Unchanged (k a))
      → Unchanged (m >>= k)
  unfolding Unchanged
  bind-Unchanged m k hm hk s = continue k s (m s) (hm s) hk
