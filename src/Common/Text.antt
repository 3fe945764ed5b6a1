-- ===== src/Common/Text.antt =====
-- Texts, and what `c_str` hands to a C library: the characters before the first NUL.
use Prim.Native.String.{String}
use text.Mathlib.TextEquality.{eq_iff}
use mathlib.Core.Path.{◌≡◌, refl, ap}
use Prim.Native.Char.{code}
use text.Mathlib.TextPositions.{eq_refl}
use mathlib.Core.Logic.{◌≢◌, inl, inr}
use mathlib.Core.Bool.{true, false}
use upi_w_o_internet.Common.Tests.{◌==◌ as nat_eq, Bool-cases}
unfoldable pub use text.Mathlib.Text.{◌==◌ as str_eq}

pub str_eq_refl : (s : String) → str_eq s s ≡ true
str_eq_refl s = eq_refl s

pub str_eq→≡ : (s t : String) → str_eq s t ≡ true → s ≡ t
str_eq→≡ s t = (eq_iff s t).0

pub ≢→str_eq : (s t : String) → s ≢ t → str_eq s t ≡ false
≢→str_eq s t h = elim (Bool-cases (str_eq s t)) [ inl e ↦ absurd (h (str_eq→≡ s t e)) | inr e ↦ e ]

unfoldable pub c_str : String → String
c_str String.[] = String.[]
c_str (String.◌∷◌ c s) = elim (nat_eq (code c) 0) [
  | true ↦ String.[]
  | false ↦ String.◌∷◌ c (c_str s)
]

pub c_str_idem : (s : String) → c_str (c_str s) ≡ c_str s
unfolding c_str
c_str_idem String.[] = refl
c_str_idem (String.◌∷◌ c s) = elim (Bool-cases (nat_eq (code c) 0)) [
  | inl e ↦ rw (e, c_str) refl
  | inr e ↦ rw (e, c_str) (rw (e, c_str) (ap (String.◌∷◌ c) (c_str_idem s)))
]
