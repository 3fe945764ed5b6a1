-- ===== src/Common/Bytes.antt =====
-- A `std::string` is a sequence of bytes: the character with the number of a byte stands for it.
use Prim.Native.Char.{Char, char, code, nul, IsScalar}
use Prim.Native.Nat.{ℕ, ◌<◌, compare, Ordering}
use Prim.Native.String.{String}
use mathlib.Core.Path.{◌≡◌, refl}
use mathlib.Core.Logic.{dite}
use mathlib.Core.List.{List, [], ◌∷◌}
use native.Mathlib.Omega.{arith}
use native.Mathlib.Decide.{dec_lt}
use upi_w_o_internet.Common.Lists.{All}

abbrev pub Bytes : Type 0
Bytes = List ℕ

abbrev pub IsByte : ℕ → Type 0
IsByte b = b < 256

pub byte-IsScalar : (b : ℕ) → IsByte b → IsScalar b
byte-IsScalar b h = let below : compare b 55296 ≡ Ordering.lt = ground arith in rw below tt

unfoldable pub byte_char : ℕ → Char
unfolding dec_lt
byte_char b = dite (dec_lt b 256) (λ h. char b (byte-IsScalar b h)) (λ _. nul)

unfoldable pub text_of_bytes : Bytes → String
unfolding byte_char
text_of_bytes [] = String.[]
text_of_bytes (b ∷ bs) = String.◌∷◌ (byte_char b) (text_of_bytes bs)

unfoldable pub bytes_of_text : String → Bytes
bytes_of_text String.[] = []
bytes_of_text (String.◌∷◌ c s) = code c ∷ bytes_of_text s

code-dite :
    (b : ℕ)
    → IsByte b
    → (d : Dec (b < 256)) → code (dite d (λ h. char b (byte-IsScalar b h)) (λ _. nul)) ≡ b
code-dite b h (yes p) = refl
code-dite b h (no n) = absurd (n h)

code-byte_char : (b : ℕ) → IsByte b → code (byte_char b) ≡ b
unfolding byte_char
code-byte_char b h = code-dite b h (dec_lt b 256)

pub bytes_of_text-text_of_bytes :
    (bs : Bytes) → All IsByte bs → bytes_of_text (text_of_bytes bs) ≡ bs
unfolding text_of_bytes bytes_of_text
bytes_of_text-text_of_bytes [] h = refl
bytes_of_text-text_of_bytes (b ∷ bs) h =
    cc (code-byte_char b h.0, bytes_of_text-text_of_bytes bs h.1)
