-- ===== src/Common/Map.antt =====
-- A `std::unordered_map` with text keys, as an association list in the order of insertion.
use Prim.Native.Nat.{suc}
use Prim.Native.String.{String}
use text.Mathlib.TextEquality.{eq_iff}
use mathlib.Core.Path.{◌≡◌, refl}
use mathlib.Core.Logic.{◌≢◌}
use mathlib.Core.Bool.{Bool, true, false}
use mathlib.Core.Option.{Option, none, some}
use mathlib.Core.List.{List, [], ◌∷◌}
use native.Mathlib.Omega.{arith}
use upi_w_o_internet.Common.Tests.{if◌then◌else◌}
use upi_w_o_internet.Common.Lists.{length}
use upi_w_o_internet.Common.Text.{str_eq, str_eq_refl}

abbrev pub Map {ℓ} : Type ℓ → Type ℓ
Map V = List (String × V)

module _ {ℓ} {V : Type ℓ} where
  -- `find`
  unfoldable pub lookup : String → Map V → Option V
  lookup key [] = none
  lookup key ((held, value) ∷ rest) = if str_eq held key then some value else lookup key rest

  abbrev pub is_some : Option V → Bool
  is_some none = false
  is_some (some v) = true

  abbrev pub contains : String → Map V → Bool
  contains k m = is_some (lookup k m)

  -- `m[key] = value`
  unfoldable pub insert : String → V → Map V → Map V
  insert key value [] = (key, value) ∷ []
  insert key value ((held, old) ∷ rest) =
      if str_eq held key then (held, value) ∷ rest else (held, old) ∷ insert key value rest

  abbrev pub values : Map V → List V
  values [] = []
  values ((k, v) ∷ m) = v ∷ values m

  -- Each key stands once.
  abbrev pub IsMap : Map V → Type ℓ
  IsMap [] = Unit
  IsMap ((k, v) ∷ m) = (lookup k m ≡ none) × IsMap m

  abbrev pub keys : Map V → List String
  keys [] = []
  keys ((k, v) ∷ m) = k ∷ keys m

  -- Reading after writing: the new value at its key, what was there elsewhere.
  pub lookup-insert :
      (key other : String) (value : V) (entries : Map V)
      → lookup other (insert key value entries)
        ≡ (if str_eq key other then some value else lookup other entries)
  unfolding lookup insert
  lookup-insert key other value [] = refl
  lookup-insert key other value ((held, old) ∷ rest) =
      let after = lookup-insert key other value rest in
      ground (arith, eq_iff held key, eq_iff held other, eq_iff key other)

  pub lookup-insert_self :
      (key : String) (value : V) (entries : Map V)
      → lookup key (insert key value entries) ≡ some value
  lookup-insert_self key value entries =
      rw (lookup-insert key key value entries, str_eq_refl key) refl

  pub lookup-insert_ne :
      (key other : String) (value : V) (entries : Map V)
      → key ≢ other
      → lookup other (insert key value entries) ≡ lookup other entries
  lookup-insert_ne key other value entries differ =
      ground (arith, eq_iff key other, lookup-insert key other value entries)

  -- The size grows by one exactly when the key is new.
  pub length-insert :
      (k : String) (v : V) (m : Map V)
      → length (insert k v m) ≡ (if contains k m then length m else suc (length m))
  unfolding lookup insert
  length-insert k v [] = refl
  length-insert k v ((j, w) ∷ m) = ground (arith, length-insert k v m)

  -- Writing to a key that is there leaves the list of keys alone.
  pub keys-insert :
      (k : String) {w : V} (v : V) (m : Map V) → lookup k m ≡ some w → keys (insert k v m) ≡ keys m
  unfolding lookup insert
  keys-insert k v [] h = ground arith
  keys-insert k {w} v ((j, u) ∷ m) h = ground (arith, keys-insert k {w = w} v m)

  pub insert-IsMap : (k : String) (v : V) (m : Map V) → IsMap m → IsMap (insert k v m)
  unfolding lookup insert
  insert-IsMap k v [] h = (refl, tt)
  insert-IsMap k v ((j, w) ∷ m) h =
      ground (arith, eq_iff j k, eq_iff k j, lookup-insert k j v m, insert-IsMap k v m h.1)
