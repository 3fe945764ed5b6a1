-- ===== src/Main/Serving/Steps.antt =====
-- What one call of a handler does to the tables and to the devices.
use upi_w_o_internet.Common.{
  true, false, ℕ, String, ◌≡◌, refl, ap, ◌∙◌, ◌⊎◌, inl, inr, Option-cases, some,
}
use upi_w_o_internet.Common.Int.{ℤ}
use upi_w_o_internet.Common.Map.{keys, keys-insert}
use upi_w_o_internet.Common.Result.{Exception, Result-cases, ok, err, ◌>>=◌}
use upi_w_o_internet.Model.Records.{MeshPacket}
use upi_w_o_internet.Model.Sqlite.{Sqlite}
use upi_w_o_internet.Model.Documented.{IsSqlite}
use upi_w_o_internet.Model.AccountRepository
use upi_w_o_internet.Model.TransactionRepository
use upi_w_o_internet.Service.Mesh.{Mesh, gossip_once, offer, update_device, hold, decrement}
use upi_w_o_internet.Service.Mesh.Gossip.{gossip_round-rel, offer-cases, Copied}
use upi_w_o_internet.Service.Bridge.{CryptoService, Readings}
use upi_w_o_internet.Controller.Api.{
  Http, Request, Server, bridge_ingest, call_ingest, read_packet, parse_hop_count,
  has_packet_fields, or_unknown, list_accounts, list_transactions,
}
use upi_w_o_internet.Controller.Send.{World, SendResponse}
use upi_w_o_internet.Controller.Send.Outcome.{Told}

-- A round of gossip leaves the devices there.
offer-keys :
    (src : String) (p : MeshPacket) (s : Mesh × ℕ) (dst : String)
    → keys (offer src p s dst).0 ≡ keys s.0
unfolding Copied update_device
offer-keys src p (m, n) dst = elim (offer-cases src p (m, n) dst) [
  | inl same ↦ rw same refl
  | inr (d, found, absent, copied) ↦ rw copied (keys-insert dst (hold (decrement p) d) m found)
]

pub gossip_once-keys : (m : Mesh) → keys (gossip_once m).1 ≡ keys m
unfolding gossip_once
gossip_once-keys m =
    gossip_round-rel (λ s t. keys t.0 ≡ keys s.0) (λ s. refl) (λ s t u st tu. tu ∙ st) offer-keys m

-- So does a payment that is sent.
pub Told-keys :
    (w : World) (m : Mesh) (end : SendResponse × Mesh) → Told w m end → keys end.1 ≡ keys m
unfolding update_device
Told-keys w m (SendResponse.bad_request msg, m') told = rw told refl
Told-keys w m (SendResponse.internal_error msg, m') told = rw told refl
Told-keys w m (SendResponse.escaped e, m') told = rw told refl
Told-keys w m (SendResponse.sent s, m') (id, d, found, e) =
    rw e (keys-insert s.injected_at _ m found)

module _ (q : Sqlite) (laws : IsSqlite q) where
  open laws use {view}

  pub view-list_accounts : (s : Server q) → view (list_accounts q s).1.db ≡ view s.db
  unfolding list_accounts AccountRepository.find_all
  view-list_accounts s = rw (laws.prepares_all s.db) (laws.lists s.db).1

  pub view-list_transactions : (s : Server q) → view (list_transactions q s).1.db ≡ view s.db
  unfolding list_transactions TransactionRepository.find_top20_by_order_by_id_desc
  view-list_transactions s = rw (laws.prepares_top s.db) (laws.tops s.db).1

module _ (q : Sqlite) (c : CryptoService) (http : Http) (t : Readings) (req : Request http) where
  -- The call of `ingest` that a handler of an upload ends with, if it comes to one.
  abbrev pub Uploads : Server q → Server q → Type 0
  Uploads s s' =
      (j : http.Body) × (p : MeshPacket) × (b : String) × (n : ℤ) × (req.json ≡ some j)
      × (http.as_string j "ciphertext" ≡ ok p.ciphertext)
      × (s' ≡ (call_ingest q c http t p b n s).1)

  read_packet-cases :
      (j : http.Body) (s : Server q)
      → ((e : Exception) × (read_packet q c http j s ≡ (err e, s)))
        ⊎ ((p : MeshPacket) × (read_packet q c http j s ≡ (ok p, s))
            × (http.as_string j "ciphertext" ≡ ok p.ciphertext))
  unfolding read_packet
  read_packet-cases j s = elim (Result-cases (http.as_string j "packetId")) [
    | inr (e, x) ↦ inl (e, rw x refl)
    | inl (id, x₁) ↦ elim (Result-cases (http.as_int j "ttl")) [
      | inr (e, x) ↦ inl (e, rw (x₁, x) refl)
      | inl (ttl, x₂) ↦ elim (Result-cases (http.as_int64 j "createdAt")) [
        | inr (e, x) ↦ inl (e, rw (x₁, x₂, x) refl)
        | inl (created_at, x₃) ↦ elim (Result-cases (http.as_string j "ciphertext")) [
          | inr (e, x) ↦ inl (e, rw (x₁, x₂, x₃, x) refl)
          | inl (ciphertext, x₄) ↦ inr (
            record { packet_id = id; ttl = ttl; created_at = created_at; ciphertext = ciphertext },
            rw (x₁, x₂, x₃, x₄) refl,
            x₄,
          )
        ]
      ]
    ]
  ]

  -- A call that comes to no packet changes nothing.
  pub bridge_ingest-cases :
      (s : Server q)
      → ((bridge_ingest q c http t req s).1 ≡ s) ⊎ Uploads s (bridge_ingest q c http t req s).1
  unfolding bridge_ingest
  bridge_ingest-cases s = elim (Option-cases req.json) [
    | inl empty ↦ inl (rw (empty, bridge_ingest) refl)
    | inr (j, body) ↦ elim (Result-cases (has_packet_fields q c http j)) [
      | inr (e, thrown) ↦ inl (rw (body, bridge_ingest) (rw (thrown, ◌>>=◌) refl))
      | inl (false, missing) ↦ inl (rw (body, bridge_ingest) (rw (missing, ◌>>=◌) refl))
      | inl (true, complete) ↦
          elim (Result-cases (parse_hop_count q c http (req.header "X-Hop-Count"))) [
            | inr (e, x) ↦ inl (rw (body, bridge_ingest) (rw (complete, x) refl))
            | inl (hops, x) ↦ elim (read_packet-cases j s) [
              | inl (e, failed) ↦ inl (
                  rw (body, bridge_ingest)
                    (rw (complete, x) (rw (failed, ◌>>=◌) (ap (λ end. end.1) failed))))
              | inr (p, read, text) ↦ inr (
                j,
                p,
                or_unknown q c http (req.header "X-Bridge-Node-Id"),
                hops,
                body,
                text,
                rw (body, bridge_ingest)
                    (rw (complete, x)
                      (rw (read, ◌>>=◌)
                        (ap
                          (λ end.
                            (call_ingest q c http t p
                              (or_unknown q c http (req.header "X-Bridge-Node-Id")) hops end.1).1)
                          read))),
              )
            ]
          ]
    ]
  ]
