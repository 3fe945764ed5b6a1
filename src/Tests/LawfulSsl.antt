-- ===== src/Tests/LawfulSsl.antt =====
-- The stand-in of ToySsl does what Crypto.Laws says, and the round trips of crypto/ on it.
use upi_w_o_internet.Common.{
  ℕ, zero, suc, ◌+◌, ◌≡◌, refl, sym, subst, ap, ◌∙◌, Option, some, [], ◌∷◌, ◌++◌, take, length, All,
  arith,
}
use upi_w_o_internet.Common.Bytes.{Bytes, IsByte}
use upi_w_o_internet.Common.Result.{ok}
use upi_w_o_internet.Crypto.Laws.{IsOpenSsl}
use upi_w_o_internet.Crypto.HybridCrypto.{decrypt}
use upi_w_o_internet.Crypto.Roundtrip.{decrypt-encrypt}
use upi_w_o_internet.Tests.ToySsl.{
  zeros, spell, unary, count, wrap, toy_ssl, toy_json, hello, sealed, encrypt_test,
}

length-zeros : (n : ℕ) → length (zeros n) ≡ n
unfolding zeros
length-zeros zero = refl
length-zeros (suc n) = omega (arith, length-zeros n)

spell_bytes : (n : ℕ) (bs : Bytes) → All IsByte bs → All IsByte (spell n bs)
unfolding spell
spell_bytes zero bs h = (omega arith, h)
spell_bytes (suc n) bs h = (omega arith, spell_bytes n bs h)

unary_bytes : (bs : Bytes) → All IsByte (unary bs)
unfolding unary
unary_bytes [] = tt
unary_bytes (b ∷ bs) = spell_bytes b (unary bs) (unary_bytes bs)

count-spell : (m n : ℕ) (bs : Bytes) → count m (spell n bs) ≡ (m + n) ∷ count 0 bs
unfolding count spell
count-spell m zero bs = ap (λ k. k ∷ count 0 bs) (omega arith)
count-spell m (suc n) bs = count-spell (suc m) n bs ∙ ap (λ k. k ∷ count 0 bs) (omega arith)

count-unary : (bs : Bytes) → count 0 (unary bs) ≡ bs
unfolding count unary
count-unary [] = refl
count-unary (b ∷ bs) =
    count-spell 0 b (unary bs)
    ∙ ap (λ k. k ∷ count 0 (unary bs)) (omega arith)
    ∙ ap (◌∷◌ b) (count-unary bs)

append-nil : (bs : Bytes) → bs ++ [] ≡ bs
append-nil [] = refl
append-nil (b ∷ bs) = ap (◌∷◌ b) (append-nil bs)

length-append : (bs cs : Bytes) → length (bs ++ cs) ≡ length bs + length cs
length-append [] cs = omega arith
length-append (b ∷ bs) cs = omega (arith, length-append bs cs)

take-append : (n : ℕ) (bs cs : Bytes) → length bs ≡ n → take n (bs ++ cs) ≡ bs
take-append zero [] cs h = refl
take-append zero (b ∷ bs) cs h = absurd (omega (arith, h))
take-append (suc n) [] cs h = absurd (omega (arith, h))
take-append (suc n) (b ∷ bs) cs h = ap (◌∷◌ b) (take-append n bs cs (omega (arith, h)))

wrap_lem :
    (text wrapped : Bytes)
    → wrap text ≡ some wrapped
    → (length text ≡ 32) × (wrapped ≡ text ++ zeros 224)
wrap_lem text wrapped h = (ground arith, ground arith)

joined :
    (plaintext body rest key key' finished : Bytes)
    → ◌≡◌ {A = Option (Bytes × Bytes)} (some (plaintext, key)) (some (body, key'))
    → ◌≡◌ {A = Option (Bytes × Bytes)} (some ([], key')) (some (rest, finished))
    → body ++ rest ≡ plaintext
joined plaintext body rest key key' finished updates finishes =
    let same : plaintext ≡ body = cc in
    let none_left : [] ≡ rest = cc in
    subst (λ r. body ++ r ≡ plaintext) none_left (append-nil body ∙ sym same)

pub toy_ssl-IsOpenSsl : IsOpenSsl toy_ssl tt
toy_ssl-IsOpenSsl = record {
  random_length = λ i n bs drawn. cc (length-zeros n);
  base64 = λ bs. ap some (count-unary bs);
  base64_bytes = unary_bytes;
  tag_length = λ n c tag drawn. cc (length-zeros n);
  gcm_length = λ c key iv plaintext body rest tag seals. ap length (
      joined plaintext body rest seals.keyed seals.updated seals.finished seals.updates
        seals.finishes);
  gcm = λ c key iv plaintext body rest tag made seals. record {
    init = c;
    keyed = c;
    updated = c;
    tagged = c;
    body = body ++ rest;
    rest = [];
    inits = refl;
    keys = refl;
    updates = refl;
    tags = refl;
    verifies = refl;
    opened =
        append-nil (body ++ rest)
        ∙ joined plaintext body rest seals.keyed seals.updated seals.finished seals.updates
            seals.finishes;
  };
  wrapped_length = λ c message wrapped made seals.
      let (size, made) = wrap_lem message wrapped seals.wraps in
      ap length made ∙ length-append message (zeros 224) ∙ cc (size, length-zeros 224);
  oaep = λ c message wrapped made seals.
      let (size, made) = wrap_lem message wrapped seals.wraps in
      record {
        init = c;
        padded = c;
        digested = c;
        masked = c;
        size = 256;
        inits = refl;
        pads = refl;
        digests = refl;
        masks = refl;
        sizes = refl;
        unwraps = ap some (ap (take 32) made ∙ take-append 32 message (zeros 224) size);
      };
}

decrypt-encrypt_example :
    (plaintext : Bytes) × (ok hello ≡ ok plaintext)
    × ((decrypt toy_ssl toy_json tt sealed 5).0 ≡ ok plaintext)
decrypt-encrypt_example =
    decrypt-encrypt toy_ssl toy_json tt toy_ssl-IsOpenSsl 0 hello sealed 0 5
      (ap (λ p. p.0) encrypt_test)
