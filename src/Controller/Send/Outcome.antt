-- ===== src/Controller/Send/Outcome.antt =====
-- ApiController::demoSend: what each outcome does to the mesh.
use upi_w_o_internet.Common.{
  Bool, true, false, ◌≡◌, refl, String, some, arith, inl, inr, Option-cases,
}
use upi_w_o_internet.Common.Bytes.{Bytes}
use upi_w_o_internet.Common.Int.{ℤ}
use upi_w_o_internet.Common.Map.{lookup}
use upi_w_o_internet.Common.Result.{Action, Result, Result-cases, ok, err, pure, ◌>>=◌, ◌>>◌}
use upi_w_o_internet.Common.Unchanged.{Unchanged, bind-Unchanged, pure-Unchanged, lift-Unchanged}
use upi_w_o_internet.Model.Json.{Json}
use upi_w_o_internet.Model.Records.{MeshPacket, PaymentInstruction}
use upi_w_o_internet.Crypto.OpenSsl.{OpenSsl}
use upi_w_o_internet.Crypto.Service.{Serializer}
use upi_w_o_internet.Service.Mesh.{Mesh, VirtualDevice, inject, get_device, update_device, hold}
use upi_w_o_internet.Controller.Api.{Http, Request}
use upi_w_o_internet.Controller.Send.{
  if_complete, World, Sent, SendResponse, sent, bad_request, internal_error, escaped, read_payment,
  send_instruction, send_payment, demo_send, answer, has_payment_fields,
}

-- The packet that an answer tells of.
abbrev pub packet_of : World → Sent → MeshPacket
packet_of w s = record {
  packet_id = s.packet_id;
  ttl = s.ttl;
  created_at = w.now;
  ciphertext = s.full_ciphertext;
}

-- A positive answer: the packet is on the device that it names. Any other: nothing has changed.
abbrev pub Told : World → Mesh → SendResponse × Mesh → Type 0
Told w m (bad_request msg, m') = m' ≡ m
Told w m (internal_error msg, m') = m' ≡ m
Told w m (escaped e, m') = m' ≡ m
Told w m (sent s, m') =
    (s.packet_id ≡ w.packet_id)
    × (d : VirtualDevice) × (lookup s.injected_at m ≡ some d)
    × (m' ≡ update_device s.injected_at (hold (packet_of w s) d) m)

unfoldable Tells : World → Action Mesh SendResponse → Type 0
Tells w act = (m : Mesh) → Told w m (answer (act m))

after :
    {A : Type 0} (w : World) (k : A → Action Mesh SendResponse) (m : Mesh) (end : Result A × Mesh)
    → end.1 ≡ m
    → ((a : A) → Tells w (k a))
    → Told w m (answer (((λ _. end) >>= k) m))
unfolding Tells
after w k m (ok a, m') same hk = rw same (hk a m)
after w k m (err e, m') same hk = same

bind-Tells :
    {A : Type 0} (w : World) (q : Action Mesh A) (k : A → Action Mesh SendResponse)
    → Unchanged q
    → ((a : A) → Tells w (k a))
    → Tells w (q >>= k)
unfolding Tells Unchanged
bind-Tells w q k hq hk m = after w k m (q m) (hq m) hk

-- A call whose results satisfy `Q`.
bind-Tells_post :
    {A : Type 0} (Q : A → Type 0) (w : World) (q : Action Mesh A) (k : A → Action Mesh SendResponse)
    → Unchanged q
    → ((m : Mesh) (a : A) → (q m).0 ≡ ok a → Q a)
    → ((a : A) → Q a → Tells w (k a))
    → Tells w (q >>= k)
unfolding Tells Unchanged
bind-Tells_post Q w q k hq post hk m = elim (Result-cases (q m).0) [
  | inr (e, failed) ↦ rw (failed, ◌>>=◌) (hq m)
  | inl (a, done) ↦ rw (done, ◌>>=◌) (rw (hq m) (hk a (post m a done) m))
]

-- What `inject` comes to, before the answer is made.
abbrev Injected : World → Sent → Mesh → Result (Unit {0}) × Mesh → Type 0
Injected w s m (err e, m') = m' ≡ m
Injected w s m (ok u, m') = Told w m (sent s, m')

Injected→Told :
    (w : World) (s : Sent) (m : Mesh) (end : Result (Unit {0}) × Mesh)
    → Injected w s m end
    → Told w m (answer (((λ _. end) >> pure (sent s)) m))
Injected→Told w s m (ok tt, m') h = h
Injected→Told w s m (err e, m') h = h

inject-Injected :
    (w : World) (s : Sent) (m : Mesh)
    → s.packet_id ≡ w.packet_id
    → Injected w s m (inject s.injected_at (packet_of w s) m)
unfolding inject get_device
inject-Injected w s m id = elim (Option-cases (lookup s.injected_at m)) [
  | inl missing ↦ rw (missing, Injected) (rw (missing, inject) refl)
  | inr (d, found) ↦ rw (found, Injected) (id, d, found, rw (found, inject) refl)
]

inject-Tells :
    (w : World) (s : Sent) (time : ℤ)
    → time ≡ w.now
    → s.packet_id ≡ w.packet_id
    → Tells w (inject s.injected_at (record (packet_of w s) { created_at = time }) >> pure (sent s))
unfolding Tells
inject-Tells w s time now id m =
    rw now (Injected→Told w s m (inject s.injected_at (packet_of w s) m) (inject-Injected w s m id))

if_complete-Told :
    (w : World) (m : Mesh) (found : Result Bool) (tried : SendResponse × Mesh)
    → Told w m tried
    → Told w m (if_complete found tried m)
if_complete-Told w m (err e) tried told = refl
if_complete-Told w m (ok true) tried told = told
if_complete-Told w m (ok false) tried told = refl

module _ (ssl : OpenSsl) (json : Json) (io : Serializer json) (key : ssl.Key)
    (sha256 : Bytes → Bytes) (http : Http) (as_double : http.Body → String → Result json.Double)
    (w : World) where
  read_payment-Unchanged :
      (j : http.Body) → Unchanged (read_payment ssl json io key sha256 http as_double w j)
  unfolding read_payment
  read_payment-Unchanged j = search (bind-Unchanged, lift-Unchanged, pure-Unchanged) depth 12

  read_payment_time :
      (j : http.Body) (m : Mesh) (pi : PaymentInstruction)
      → (read_payment ssl json io key sha256 http as_double w j m).0 ≡ ok pi
      → pi.signed_at ≡ w.now
  unfolding read_payment
  read_payment_time j m pi done = ground arith

  send_instruction-Tells :
      (j : http.Body) (pi : PaymentInstruction)
      → pi.signed_at ≡ w.now
      → Tells w (send_instruction ssl json io key sha256 http as_double w j pi)
  unfolding send_instruction
  send_instruction-Tells j pi time =
      search (bind-Tells, lift-Unchanged, inject-Tells w _ pi.signed_at time refl) depth 9

  send_payment-Tells :
      (j : http.Body) → Tells w (send_payment ssl json io key sha256 http as_double w j)
  unfolding send_payment
  send_payment-Tells j =
      bind-Tells_post (λ pi. pi.signed_at ≡ w.now) w
        (read_payment ssl json io key sha256 http as_double w j)
        (send_instruction ssl json io key sha256 http as_double w j) (read_payment-Unchanged j)
        (λ m pi done. read_payment_time j m pi done) λ pi time. send_instruction-Tells j pi time

  -- A payment that is answered with a packet has put that packet, under the id drawn for it and with
  -- the time of the clock, on the device that the answer names, which was there; any other answer, of
  -- status 400 or 500, and an exception that leaves the handler, leave the mesh as it was, at
  -- whichever step it failed.
  pub demo_send-Told :
      (req : Request http) (m : Mesh)
      → Told w m (demo_send ssl json io key sha256 http as_double w req m)
  unfolding demo_send Tells
  demo_send-Told req m = elim (Option-cases req.json) [
    | inl none_sent ↦ rw (none_sent, Told) refl
    | inr (j, body) ↦
        let found = has_payment_fields ssl json io key sha256 http as_double j in
        let tried = answer (send_payment ssl json io key sha256 http as_double w j m) in
        rw (body, Told) (if_complete-Told w m found tried (send_payment-Tells j m))
  ]
