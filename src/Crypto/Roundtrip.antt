-- ===== src/Crypto/Roundtrip.antt =====
-- What `encrypt` has sealed `decrypt` opens.
use upi_w_o_internet.Common.{suc, ℕ, ◌≡◌, refl, ◌∙◌, some, length, ◌+◌, ap, arith, All}
use upi_w_o_internet.Common.Bytes.{IsByte}
use upi_w_o_internet.Common.Result.{Action, ok, ◌>>=◌, lift}
use upi_w_o_internet.Crypto.OpenSsl.{OpenSsl, Bytes, require}
use upi_w_o_internet.Crypto.Wire.{Parts, pack, unpack, unpack-pack, length-pack}
use upi_w_o_internet.Crypto.Base64.{base64_decode, base64_decode_lem, from_base64}
use upi_w_o_internet.Crypto.Laws.{GcmOpens, OaepOpens, IsOpenSsl}
use upi_w_o_internet.Crypto.Returns.{Returns}
use upi_w_o_internet.Crypto.Sealing.{Encrypted, encrypt-Encrypted}
use upi_w_o_internet.Crypto.HybridCrypto.{JsonText, encrypt, decrypt, aes_decrypt, rsa_unwrap}

module _ (ssl : OpenSsl) where
  open ssl use {Key, Cipher, Rsa, cipher_new, rsa_new}

  rsa_unwrap-OaepOpens :
      (key : Key) (c : Rsa) (wrapped message : Bytes) (live : ℕ)
      → rsa_new key ≡ some c
      → OaepOpens ssl c wrapped message
      → (rsa_unwrap ssl key wrapped live).0 ≡ ok message
  unfolding rsa_unwrap
  rsa_unwrap-OaepOpens key c wrapped message live made o =
      rw (made, o.inits, o.pads, o.digests, o.masks, o.sizes, o.unwraps) refl

  aes_decrypt-GcmOpens :
      (key : Bytes) (c : Cipher) (p : Parts) (plaintext : Bytes) (live : ℕ)
      → cipher_new ≡ some c
      → GcmOpens ssl c key p.iv p.ciphertext p.tag plaintext
      → (aes_decrypt ssl key p live).0 ≡ ok plaintext
  unfolding aes_decrypt
  aes_decrypt-GcmOpens key c p plaintext live made o =
      rw (made, o.inits, o.keys, o.updates, o.tags, o.verifies, o.opened) refl

  -- A call that returned, followed by another.
  continue :
      {A B : Type 0} (m : Action ℕ A) (k : A → Action ℕ B) (live : ℕ) (a : A)
      → (m live).0 ≡ ok a
      → ((m >>= k) live).0 ≡ (k a (m live).1).0
  continue m k live a done = rw (done, ◌>>=◌) refl

  module _ (json : JsonText) (pair : Key) (laws : IsOpenSsl ssl pair) where
    open json use {Json, dump, parse}

    unpack-Encrypted :
        (drawn : ℕ) (instruction : Json) (text : Bytes)
        (e : Encrypted ssl json drawn instruction pair text)
        → unpack (pack e.parts) ≡ ok e.parts
    unpack-Encrypted drawn instruction text e =
        let w = e.wraps in
        let s = e.seals in
        unpack-pack e.parts
          (laws.wrapped_length w.context e.aes_key e.parts.wrapped_key w.made w.seals)
          (laws.random_length (suc drawn) 12 e.parts.iv e.draws)
          (laws.tag_length 16 s.seals.finished e.parts.tag s.seals.tags)

    decrypt-Encrypted :
        (drawn : ℕ) (instruction : Json) (text : Bytes) (live : ℕ)
        (e : Encrypted ssl json drawn instruction pair text)
        → (decrypt ssl json pair text live).0 ≡ parse e.plaintext
    unfolding decrypt
    decrypt-Encrypted drawn instruction text live e =
        let w = e.wraps in
        let s = e.seals in
        let now = (base64_decode ssl text live).1 in
        let unwraps =
          rsa_unwrap-OaepOpens pair w.context e.parts.wrapped_key e.aes_key now w.made
            (laws.oaep w.context e.aes_key e.parts.wrapped_key w.made w.seals) in
        let opens =
          laws.gcm s.context e.aes_key e.parts.iv e.plaintext s.body s.rest e.parts.tag s.made
            s.seals in
        let parses : Bytes → Action ℕ Json = λ plaintext. lift (parse plaintext) in
        let opened = (rsa_unwrap ssl pair e.parts.wrapped_key now).1 in
        let decodes : base64_decode ssl text live ≡ (ok (pack e.parts), live) =
          base64_decode_lem ssl text live
          ∙ ap (λ out. require out "Failed to decode base64" live)
              (ap (from_base64 ssl) e.packs ∙ laws.base64 (pack e.parts)) in
        rw (◌>>=◌, decodes, unpack-Encrypted drawn instruction text e)
          (continue (rsa_unwrap ssl pair e.parts.wrapped_key)
              (λ aes_key. aes_decrypt ssl aes_key e.parts >>= parses) now e.aes_key unwraps
            ∙ continue (aes_decrypt ssl e.aes_key e.parts) parses opened e.plaintext (
                aes_decrypt-GcmOpens e.aes_key s.context e.parts e.plaintext opened s.made
                  (rw s.joined opens)))

    -- A text that `encrypt` returned for the public key of a pair is decrypted with the pair to what
    -- parsing the dumped instruction gives, whatever contexts were allocated before either call; if
    -- OpenSSL does what IsOpenSsl says.
    pub decrypt-encrypt :
        (drawn : ℕ) (instruction : Json) (text : Bytes) (live live' : ℕ)
        → (encrypt ssl json drawn instruction pair live).0 ≡ ok text
        → (plaintext : Bytes) × (dump instruction ≡ ok plaintext)
          × ((decrypt ssl json pair text live').0 ≡ parse plaintext)
    unfolding Returns
    decrypt-encrypt drawn instruction text live live' done =
        let e = encrypt-Encrypted ssl json drawn instruction pair live text done in
        (e.plaintext, e.dumps, decrypt-Encrypted drawn instruction text live' e)

    pub encrypt_bytes :
        (drawn : ℕ) (instruction : Json) (text : Bytes) (live : ℕ)
        → (encrypt ssl json drawn instruction pair live).0 ≡ ok text
        → All IsByte text
    unfolding Returns
    encrypt_bytes drawn instruction text live done =
        let e = encrypt-Encrypted ssl json drawn instruction pair live text done in
        rw e.packs (laws.base64_bytes (pack e.parts))

    -- The bytes that `encrypt` encodes are as many as the dumped instruction has and 284 more.
    pub encrypt-length :
        (drawn : ℕ) (instruction : Json) (text : Bytes) (live : ℕ)
        → (encrypt ssl json drawn instruction pair live).0 ≡ ok text
        → (plaintext raw : Bytes) × (dump instruction ≡ ok plaintext)
          × (from_base64 ssl text ≡ some raw)
          × (length raw ≡ 256 + 12 + length plaintext + 16)
    unfolding Returns
    encrypt-length drawn instruction text live done =
        let e = encrypt-Encrypted ssl json drawn instruction pair live text done in
        let w = e.wraps in
        let s = e.seals in
        let key = laws.wrapped_length w.context e.aes_key e.parts.wrapped_key w.made w.seals in
        let iv = laws.random_length (suc drawn) 12 e.parts.iv e.draws in
        let tag = laws.tag_length 16 s.seals.finished e.parts.tag s.seals.tags in
        let sealed =
          laws.gcm_length s.context e.aes_key e.parts.iv e.plaintext s.body s.rest e.parts.tag
            s.seals in
        (
          e.plaintext,
          pack e.parts,
          e.dumps,
          rw e.packs (laws.base64 (pack e.parts)),
          omega (arith, length-pack e.parts, ap length s.joined),
        )
