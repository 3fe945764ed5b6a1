-- ===== src/Crypto/Balance.antt =====
-- When the contexts that an action of crypto/ makes are all freed: the state is their number.
use upi_w_o_internet.Common.{ℕ, suc, ◌-◌, arith, String, ◌≡◌, refl, ◌∙◌, Option, none, some}
use upi_w_o_internet.Common.Result.{Action, ◌>>=◌, ◌>>◌}
use upi_w_o_internet.Common.Unchanged.{Unchanged}
use upi_w_o_internet.Crypto.OpenSsl.{new_context, or_free, require, free, free_after}

freed : (live : ℕ) → suc live - 1 ≡ live
freed live = omega arith

module _ {A : Type 0} where
  -- One context fewer lives after the action.
  unfoldable pub Closes : Action ℕ A → Type 0
  Closes m = (live : ℕ) → (m (suc live)).1 ≡ live

  pub require-Unchanged : (o : Option A) (msg : String) → Unchanged (require o msg)
  unfolding Unchanged Closes
  require-Unchanged none msg live = refl
  require-Unchanged (some a) msg live = refl

module _ {A B : Type 0} where
  pub new_context-Unchanged :
      (o : Option A) (msg : String) (k : A → Action ℕ B)
      → ((a : A) → Closes (k a))
      → Unchanged (new_context o msg >>= k)
  unfolding Unchanged Closes
  new_context-Unchanged none msg k hk live = refl
  new_context-Unchanged (some a) msg k hk live = hk a live

  pub or_free-Closes :
      (o : Option A) (msg : String) (k : A → Action ℕ B)
      → ((a : A) → Closes (k a))
      → Closes (or_free o msg >>= k)
  unfolding Unchanged Closes
  or_free-Closes none msg k hk live = freed live
  or_free-Closes (some a) msg k hk live = hk a live

  pub free_after-Closes :
      (a : A) (k : A → Action ℕ B) → ((a : A) → Unchanged (k a)) → Closes (free_after a >>= k)
  unfolding Unchanged Closes
  free_after-Closes a k hk live = hk a (suc live - 1) ∙ freed live

pub free-Closes : {B : Type 0} (k : Action ℕ B) → Unchanged k → Closes (free >> k)
unfolding Unchanged Closes
free-Closes k hk live = hk (suc live - 1) ∙ freed live
