-- ===== src/Service/Mesh/Passing.antt =====
-- Loops that pass an item: of a list, of the keys or the values of a map.
use upi_w_o_internet.Common.{
  String, ◌≡◌, refl, ap, true, some, List, [], ◌∷◌, ◌++◌, foldl, Bool-cases, inl, inr,
}
use upi_w_o_internet.Common.Map.{Map, keys, values, lookup}
use upi_w_o_internet.Common.Text.{str_eq, str_eq→≡}
use upi_w_o_internet.Service.Mesh.Gossip.{foldl-rel}

-- An item stands in a list.
abbrev pub Stands : {A : Type 0} → A → List A → Type 0
Stands {A} a xs = (before after : List A) × (xs ≡ before ++ a ∷ after)

pub Stands-cons : {A : Type 0} (a b : A) (xs : List A) → Stands a xs → Stands a (b ∷ xs)
Stands-cons a b xs (before, after, e) = (b ∷ before, after, ap (◌∷◌ b) e)

module _ {V : Type 0} where
  pub key-Stands : (k : String) (v : V) (m : Map V) → lookup k m ≡ some v → Stands k (keys m)
  unfolding lookup
  key-Stands k v [] h = cc
  key-Stands k v ((j, w) ∷ m) h = elim (Bool-cases (str_eq j k)) [
    | inl same ↦ ([], keys m, ap (λ i. i ∷ keys m) (str_eq→≡ j k same))
    | inr differ ↦ Stands-cons k j (keys m) (key-Stands k v m (rw differ at h))
  ]

  -- The entry at the head, if the key is its.
  pub head :
      (j k : String) (v w : V) (m : Map V)
      → str_eq j k ≡ true
      → lookup k ((j, w) ∷ m) ≡ some v
      → w ≡ v
  unfolding lookup
  head j k v w m same h = cc (rw same at h)

  pub value-Stands : (k : String) (v : V) (m : Map V) → lookup k m ≡ some v → Stands v (values m)
  unfolding lookup
  value-Stands k v [] h = cc
  value-Stands k v ((j, w) ∷ m) h = elim (Bool-cases (str_eq j k)) [
    | inl same ↦ ([], values m, ap (λ i. i ∷ values m) (head j k v w m same h))
    | inr differ ↦ Stands-cons v w (values m) (value-Stands k v m (rw differ at h))
  ]

-- A loop passes an item that stands in its list.
foldl-append :
    {A S : Type 0} (f : S → A → S) (s : S) (xs ys : List A)
    → foldl f s (xs ++ ys) ≡ foldl f (foldl f s xs) ys
foldl-append f s [] ys = refl
foldl-append f s (x ∷ xs) ys = foldl-append f (f s x) xs ys

module _ {A S : Type 0} (f : S → A → S) (R : S → S → Type 0) (R_refl : (s : S) → R s s)
    (R_trans : (s t u : S) → R s t → R t u → R s u) (step : (s : S) (a : A) → R s (f s a)) where
  -- The state before the item, related to the first, and the state after it, related to the last.
  pub foldl-passes :
      (s : S) (a : A) (xs : List A) → Stands a xs → (t : S) × R s t × R (f t a) (foldl f s xs)
  foldl-passes s a xs (before, after, e) =
      let t = foldl f s before in
      (
        t,
        foldl-rel R R_refl R_trans f step s before,
        rw (e, foldl-append f s before (a ∷ after))
            (foldl-rel R R_refl R_trans f step (f t a) after),
      )
