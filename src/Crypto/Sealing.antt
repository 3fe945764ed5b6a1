-- ===== src/Crypto/Sealing.antt =====
-- What a call of `encrypt` that returned has done.
use upi_w_o_internet.Common.{suc, ℕ, ◌≡◌, refl, subst, some, ◌++◌}
use upi_w_o_internet.Common.Result.{Action, ok, ◌>>=◌}
use upi_w_o_internet.Crypto.OpenSsl.{OpenSsl, Bytes}
use upi_w_o_internet.Crypto.Base64.{base64_encode, base64_encode_lem, to_base64}
use upi_w_o_internet.Crypto.Wire.{Parts, pack}
use upi_w_o_internet.Crypto.Returns.{
  Returns, new_context-Returns, or_free-Returns, require-Returns, lift-Returns, free-Returns,
  pure-Returns, bind-Returns,
}
use upi_w_o_internet.Crypto.Laws.{GcmSeals, OaepSeals}
use upi_w_o_internet.Crypto.HybridCrypto.{JsonText, encrypt, aes_encrypt, rsa_wrap}

-- One rule for each kind of call.
ruleset returns = (
  new_context-Returns, or_free-Returns, require-Returns, lift-Returns, free-Returns, pure-Returns,
)

module _ (ssl : OpenSsl) where
  open ssl use {
    Key, Cipher, Rsa, rand_bytes, cipher_new, encrypt_init, encrypt_set_key, encrypt_update,
    encrypt_final, get_tag, rsa_new, rsa_encrypt_init, set_padding, set_oaep_md, set_mgf1_md,
    rsa_encrypt_size, rsa_encrypt,
  }

  -- A sealing that returned.
  pub record Sealed (key iv plaintext ciphertext tag : Bytes) : Type 0 where
    pub context : Cipher
    pub made : cipher_new ≡ some context
    pub body : Bytes
    pub rest : Bytes
    pub seals : GcmSeals ssl context key iv plaintext body rest tag
    pub joined : ciphertext ≡ body ++ rest

  Sealed-intro :
      (key iv plaintext : Bytes) (c : Cipher)
      → cipher_new ≡ some c
      → (c₁ : Cipher) → encrypt_init c ≡ some c₁
      → (c₂ : Cipher) → encrypt_set_key key iv c₁ ≡ some c₂
      → (p : Bytes × Cipher) → encrypt_update plaintext c₂ ≡ some p
      → (r : Bytes × Cipher) → encrypt_final p.1 ≡ some r
      → (tag : Bytes) → get_tag 16 r.1 ≡ some tag
      → Sealed key iv plaintext (p.0 ++ r.0) tag
  Sealed-intro key iv plaintext c made c₁ inits c₂ keys p updates r finishes tag tags = record {
    context = c;
    made = made;
    body = p.0;
    rest = r.0;
    seals = record {
      init = c₁;
      keyed = c₂;
      updated = p.1;
      finished = r.1;
      inits = inits;
      keys = keys;
      updates = updates;
      finishes = finishes;
      tags = tags;
    };
    joined = refl;
  }

  aes_encrypt-Sealed :
      (key iv plaintext : Bytes)
      → Returns (λ p. Sealed key iv plaintext p.0 p.1) (aes_encrypt ssl key iv plaintext)
  unfolding aes_encrypt
  aes_encrypt-Sealed key iv plaintext = search (returns, Sealed-intro) depth 16

  -- A wrapping that returned.
  pub record Wrapped (key : Key) (message wrapped : Bytes) : Type 0 where
    pub context : Rsa
    pub made : rsa_new key ≡ some context
    pub seals : OaepSeals ssl context message wrapped

  Wrapped-intro :
      (key : Key) (message : Bytes) (c : Rsa)
      → rsa_new key ≡ some c
      → (c₁ : Rsa) → rsa_encrypt_init c ≡ some c₁
      → (c₂ : Rsa) → set_padding c₁ ≡ some c₂
      → (c₃ : Rsa) → set_oaep_md c₂ ≡ some c₃
      → (c₄ : Rsa) → set_mgf1_md c₃ ≡ some c₄
      → (wrapped : Bytes) → rsa_encrypt message c₄ ≡ some wrapped
      → Wrapped key message wrapped
  Wrapped-intro key message c made c₁ inits c₂ pads c₃ digests c₄ masks wrapped wraps = record {
    context = c;
    made = made;
    seals = record {
      init = c₁;
      padded = c₂;
      digested = c₃;
      masked = c₄;
      inits = inits;
      pads = pads;
      digests = digests;
      masks = masks;
      wraps = wraps;
    };
  }

  rsa_wrap-Wrapped :
      (key : Key) (message : Bytes) → Returns (Wrapped key message) (rsa_wrap ssl key message)
  unfolding rsa_wrap
  rsa_wrap-Wrapped key message = search (returns, Wrapped-intro) depth 18

  module _ (json : JsonText) where
    open json use {Json, dump}

    -- An encryption that returned.
    pub record Encrypted (drawn : ℕ) (instruction : Json) (key : Key) (text : Bytes) : Type 0 where
      pub plaintext : Bytes
      pub dumps : dump instruction ≡ ok plaintext
      pub aes_key : Bytes
      pub parts : Parts
      pub draws : rand_bytes (suc drawn) 12 ≡ some parts.iv
      pub seals : Sealed aes_key parts.iv plaintext parts.ciphertext parts.tag
      pub wraps : Wrapped key aes_key parts.wrapped_key
      pub packs : text ≡ to_base64 ssl (pack parts)

    Encrypted-intro :
        (drawn : ℕ) (instruction : Json) (key : Key) (plaintext : Bytes)
        → dump instruction ≡ ok plaintext
        → (aes_key iv : Bytes) → rand_bytes (suc drawn) 12 ≡ some iv
        → (p : Bytes × Bytes) → Sealed aes_key iv plaintext p.0 p.1
        → (wrapped : Bytes) → Wrapped key aes_key wrapped
        → Encrypted drawn instruction key (
            to_base64 ssl
              (pack (record { wrapped_key = wrapped; iv = iv; ciphertext = p.0; tag = p.1 })))
    Encrypted-intro drawn instruction key plaintext dumps aes_key iv draws p seals wrapped wraps =
        record {
          plaintext = plaintext;
          dumps = dumps;
          aes_key = aes_key;
          parts = record { wrapped_key = wrapped; iv = iv; ciphertext = p.0; tag = p.1 };
          draws = draws;
          seals = seals;
          wraps = wraps;
          packs = refl;
        }

    base64_encode-Returns :
        (P : Bytes → Type 0) (bytes : Bytes)
        → P (to_base64 ssl bytes)
        → Returns P (base64_encode ssl bytes)
    unfolding Returns
    base64_encode-Returns P bytes p live text h =
        let same = base64_encode_lem ssl bytes live in subst P (cc) p

    aes_encrypt-Returns :
        {B : Type 0} (P : B → Type 0) (key iv plaintext : Bytes) (k : Bytes × Bytes → Action ℕ B)
        → ((p : Bytes × Bytes) → Sealed key iv plaintext p.0 p.1 → Returns P (k p))
        → Returns P (aes_encrypt ssl key iv plaintext >>= k)
    aes_encrypt-Returns P key iv plaintext k hk =
        bind-Returns P (λ p. Sealed key iv plaintext p.0 p.1) (aes_encrypt ssl key iv plaintext) k
          (aes_encrypt-Sealed key iv plaintext) hk

    rsa_wrap-Returns :
        {B : Type 0} (P : B → Type 0) (key : Key) (message : Bytes) (k : Bytes → Action ℕ B)
        → ((w : Bytes) → Wrapped key message w → Returns P (k w))
        → Returns P (rsa_wrap ssl key message >>= k)
    rsa_wrap-Returns P key message k hk =
        bind-Returns P (Wrapped key message) (rsa_wrap ssl key message) k
          (rsa_wrap-Wrapped key message) hk

    pub encrypt-Encrypted :
        (drawn : ℕ) (instruction : Json) (key : Key)
        → Returns (Encrypted drawn instruction key) (encrypt ssl json drawn instruction key)
    unfolding encrypt
    encrypt-Encrypted drawn instruction key =
        search
          (returns, aes_encrypt-Returns, rsa_wrap-Returns, base64_encode-Returns, Encrypted-intro)
          depth 18
