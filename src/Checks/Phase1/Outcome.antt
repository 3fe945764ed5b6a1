-- ===== src/Checks/Phase1/Outcome.antt =====
-- crypto/verify_phase1.cpp: what it reports.
use upi_w_o_internet.Common.{ℕ, ◌+◌, refl, Bool, true, ◌≡◌, some, sym, ap, ◌∙◌, arith, length, ◌==◌}
use upi_w_o_internet.Common.Bytes.{Bytes}
use upi_w_o_internet.Common.Result.{Action, ok, ◌>>=◌}
use upi_w_o_internet.Model.Json.{Json}
use upi_w_o_internet.Crypto.OpenSsl.{OpenSsl}
use upi_w_o_internet.Crypto.Base64.{from_base64}
use upi_w_o_internet.Crypto.ServerKey.{new_server_key}
use upi_w_o_internet.Crypto.HybridCrypto.{encrypt, decrypt}
use upi_w_o_internet.Crypto.Laws.{IsOpenSsl}
use upi_w_o_internet.Crypto.Roundtrip.{decrypt-encrypt, encrypt-length}
use upi_w_o_internet.Crypto.Returns.{
  Returns, Returned, bind-Returns, bind-Returned, new_bio-Returns, or_throw-Returns, free-Returns,
  lift-Returns, pure-Returns,
}
use upi_w_o_internet.Crypto.Service.{Serializer, json_text}
use upi_w_o_internet.Checks.Verdict.{Verdict, pass, verdict}
use upi_w_o_internet.Checks.Phase1.{Findings, sample, base64_decode_test, verify_phase1}

equal_test : (a b : ℕ) → a ≡ b → (a == b) ≡ true
equal_test a b h = ground arith

module _ (ssl : OpenSsl) (json : Json) (io : Serializer json)
    (same : json.Value → json.Value → Bool)
    (laws : (key : ssl.Key) → Returned (new_server_key ssl) key → IsOpenSsl ssl key) where
  abbrev Sound : Findings → Type 0
  Sound f =
      (f.wire_length ≡ pass)
      × (plaintext : Bytes) × (v : json.Value) × (io.dump (sample ssl json io same) ≡ ok plaintext)
      × (io.parse plaintext ≡ ok v)
      × (f.round_trip ≡ verdict (same v (sample ssl json io same)))

  Sound-intro :
      (key : ssl.Key)
      → Returned (new_server_key ssl) key
      → (plaintext : Bytes) → io.dump (sample ssl json io same) ≡ ok plaintext
      → (text : Bytes)
      → Returned (encrypt ssl (json_text json io) 0 (sample ssl json io same) key) text
      → (raw : Bytes) → from_base64 ssl text ≡ some raw
      → (decrypted : json.Value) → Returned (decrypt ssl (json_text json io) key text) decrypted
      → (header tampering : Verdict)
      → Sound (record {
        key_header = header;
        wire_length = verdict (length raw == 256 + 12 + length plaintext + 16);
        round_trip = verdict (same decrypted (sample ssl json io same));
        tampering = tampering;
      })
  Sound-intro key made plaintext dumps text sealed raw decodes decrypted opened header tampering =
      let sealing =
        encrypt-length ssl (json_text json io) key (laws key made) 0 (sample ssl json io same) text
          sealed.0 sealed.1 in
      let opening =
        decrypt-encrypt ssl (json_text json io) key (laws key made) 0 (sample ssl json io same) text
          sealed.0 opened.0 sealed.1 in
      let (plaintext', raw', dumps', decodes', size) = sealing in
      let (plaintext'', dumps'', opens) = opening in
      let same_plaintext : plaintext' ≡ plaintext = cc in
      let same_raw : raw' ≡ raw = cc in
      let size' : (length raw == 256 + 12 + length plaintext + 16) ≡ true =
        equal_test (length raw) (256 + 12 + length plaintext + 16)
          (sym (ap length same_raw) ∙ size ∙ ap (λ bs. 256 + 12 + length bs + 16) same_plaintext) in
      let parsed : io.parse plaintext'' ≡ ok decrypted = sym opens ∙ opened.1 in
      (ap verdict size', plaintext'', decrypted, dumps'', parsed, refl)

  base64_decode_test-Returns :
      {B : Type 0} (P : B → Type 0) (text : Bytes) (k : Bytes → Action ℕ B)
      → ((raw : Bytes) → from_base64 ssl text ≡ some raw → Returns P (k raw))
      → Returns P (base64_decode_test ssl json io same text >>= k)
  unfolding base64_decode_test
  base64_decode_test-Returns P text k hk =
      bind-Returns P (λ raw. from_base64 ssl text ≡ some raw)
        (base64_decode_test ssl json io same text) k
        (search (new_bio-Returns, or_throw-Returns, free-Returns, pure-Returns) depth 10) hk

  verify_phase1-Returns : Returns Sound (verify_phase1 ssl json io same)
  unfolding verify_phase1
  verify_phase1-Returns =
      search (base64_decode_test-Returns, bind-Returned, lift-Returns, pure-Returns, Sound-intro)
        depth 20

  -- If the program comes to its end it has found the length of the wire format as expected, and its
  -- round trip passes exactly if what parsing the dumped sample gives compares equal to the sample:
  -- encryption and decryption change nothing; if OpenSSL does what its laws say for the generated
  -- key.
  pub verify_phase1-Sound :
      (live : ℕ) (f : Findings)
      → (verify_phase1 ssl json io same live).0 ≡ ok f
      → (f.wire_length ≡ pass)
        × (plaintext : Bytes) × (v : json.Value) × (io.dump (sample ssl json io same)
            ≡ ok plaintext)
        × (io.parse plaintext ≡ ok v)
        × (f.round_trip ≡ verdict (same v (sample ssl json io same)))
  unfolding Returns
  verify_phase1-Sound live f done = verify_phase1-Returns live f done
