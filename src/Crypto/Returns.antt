-- ===== src/Crypto/Returns.antt =====
-- What holds of the result of an action of crypto/ that returned, and rules for it.
use upi_w_o_internet.Common.{ℕ, suc, ◌-◌, ◌≡◌, refl, subst, String, Option, none, some}
use upi_w_o_internet.Common.Result.{
  Action, Result, Exception, ok, err, ◌>>=◌, ◌>>◌, lift, or_throw, pure,
}
use upi_w_o_internet.Crypto.OpenSsl.{new_context, new_bio, or_free, require, free}

unfoldable pub Returns : {A : Type 0} → (A → Type 0) → Action ℕ A → Type 0
Returns {A} P m = (live : ℕ) (a : A) → (m live).0 ≡ ok a → P a

pub pure-Returns : {A : Type 0} (P : A → Type 0) (a : A) → P a → Returns P (pure a)
unfolding Returns
pure-Returns P a p live b h = subst P (cc) p

module _ {A B : Type 0} (P : B → Type 0) where
  pub new_context-Returns :
      (o : Option A) (msg : String) (k : A → Action ℕ B)
      → ((a : A) → o ≡ some a → Returns P (k a))
      → Returns P (new_context o msg >>= k)
  unfolding Returns
  new_context-Returns none msg k hk live b h = cc
  new_context-Returns (some a) msg k hk live b h = hk a refl (suc live) b h

  pub new_bio-Returns : (a : A) (k : A → Action ℕ B) → Returns P (k a) → Returns P (new_bio a >>= k)
  unfolding Returns
  new_bio-Returns a k hk live b h = hk (suc live) b h

  pub or_free-Returns :
      (o : Option A) (msg : String) (k : A → Action ℕ B)
      → ((a : A) → o ≡ some a → Returns P (k a))
      → Returns P (or_free o msg >>= k)
  unfolding Returns
  or_free-Returns none msg k hk live b h = cc
  or_free-Returns (some a) msg k hk live b h = hk a refl live b h

  pub require-Returns :
      (o : Option A) (msg : String) (k : A → Action ℕ B)
      → ((a : A) → o ≡ some a → Returns P (k a))
      → Returns P (require o msg >>= k)
  unfolding Returns
  require-Returns none msg k hk live b h = cc
  require-Returns (some a) msg k hk live b h = hk a refl live b h

  pub lift-Returns :
      (r : Result A) (k : A → Action ℕ B)
      → ((a : A) → r ≡ ok a → Returns P (k a))
      → Returns P (lift r >>= k)
  unfolding Returns
  lift-Returns (err e) k hk live b h = cc
  lift-Returns (ok a) k hk live b h = hk a refl live b h

  after :
      (Q : A → Type 0) (k : A → Action ℕ B) (end : Result A × ℕ) (b : B)
      → ((a : A) → end.0 ≡ ok a → Q a)
      → ((a : A) → Q a → Returns P (k a))
      → (((λ _. end) >>= k) 0).0 ≡ ok b
      → P b
  unfolding Returns
  after Q k (ok a, now) b hq hk h = hk a (hq a refl) now b h
  after Q k (err e, now) b hq hk h = cc

  pub bind-Returns :
      (Q : A → Type 0) (m : Action ℕ A) (k : A → Action ℕ B)
      → Returns Q m
      → ((a : A) → Q a → Returns P (k a))
      → Returns P (m >>= k)
  unfolding Returns
  bind-Returns Q m k hm hk live b h = after Q k (m live) b (hm live) hk h

pub free-Returns :
    {B : Type 0} (P : B → Type 0) (k : Action ℕ B) → Returns P k → Returns P (free >> k)
unfolding Returns
free-Returns P k hk live b h = hk (live - 1) b h

-- A result that an action has returned at some count of contexts.
abbrev pub Returned : {A : Type 0} → Action ℕ A → A → Type 0
Returned m a = (live : ℕ) × ((m live).0 ≡ ok a)

module _ {A B : Type 0} (P : B → Type 0) where
  after_returned :
      (k : A → Action ℕ B) (end : Result A × ℕ) (b : B)
      → ((a : A) → end.0 ≡ ok a → Returns P (k a))
      → (((λ _. end) >>= k) 0).0 ≡ ok b
      → P b
  unfolding Returns
  after_returned k (ok a, now) b hk h = hk a refl now b h
  after_returned k (err e, now) b hk h = cc

  pub bind-Returned :
      (m : Action ℕ A) (k : A → Action ℕ B)
      → ((a : A) → Returned m a → Returns P (k a))
      → Returns P (m >>= k)
  unfolding Returns
  bind-Returned m k hk live b h = after_returned k (m live) b (λ a done. hk a (live, done)) h

  pub or_throw-Returns :
      (o : Option A) (e : Exception) (k : A → Action ℕ B)
      → ((a : A) → o ≡ some a → Returns P (k a))
      → Returns P (or_throw o e >>= k)
  unfolding Returns
  or_throw-Returns none e k hk live b h = cc
  or_throw-Returns (some a) e k hk live b h = hk a refl live b h
