-- ===== src/Controller/Api.antt =====
-- controller/ApiController.cpp: the handlers, on the services of AppContext.
-- Drogon and JsonCpp are a parameter. A response is its status and the values put into it.
pub mod Flush
use Prim.Native.String.{String}
use upi_w_o_internet.Common.{
  ℕ, zero, suc, Bool, true, false, Option, none, some, List, [], ◌∷◌, map, length, if◌then◌else◌,
  ◌&&◌,
}
use upi_w_o_internet.Common.Int.{ℤ, pos, negsuc, ◌-ℤ◌, wrap32}
use upi_w_o_internet.Common.Text.{str_eq}
use upi_w_o_internet.Common.Result.{
  Action, Result, ok, err, Exception, throw, lift, pure, ◌>>=◌, ◌>>◌,
}
use upi_w_o_internet.Model.Records.{Account, MeshPacket, Transaction}
use upi_w_o_internet.Model.Sqlite.{Sqlite}
use upi_w_o_internet.Model.Database
use upi_w_o_internet.Model.AccountRepository
use upi_w_o_internet.Model.TransactionRepository
use upi_w_o_internet.Service.Idempotency
use upi_w_o_internet.Service.Idempotency.{Seen}
use upi_w_o_internet.Service.Bridge.{CryptoService, Readings, IngestResult, ingest}
use upi_w_o_internet.Service.Mesh.{
  Mesh, VirtualDevice, GossipResult, BridgeUpload, gossip_once, collect_bridge_uploads, reset_mesh,
  get_devices, get_held_packets, packet_count,
}

-- The requests: the body, if it is JSON, its members and their conversions, which may throw; the
-- headers, with the empty text for one that is missing; and `std::stoi`, which may throw.
pub record Http : Type 1 where
  pub Body : Type 0
  pub is_member : Body → String → Result Bool
  pub as_string : Body → String → Result String
  pub as_int : Body → String → Result ℤ
  pub as_int64 : Body → String → Result ℤ
  pub stoi : String → Result ℤ

pub record Request (http : Http) : Type 0 where
  pub json : Option http.Body
  pub header : String → String

-- Whether all the members are there, as far as they are looked at.
unfoldable pub has_all : (http : Http) → http.Body → List String → Result Bool
has_all http j [] = ok true
has_all http j (key ∷ keys) =
    let rest = has_all http j keys in
    elim (http.is_member j key) [ err e ↦ err e | ok false ↦ ok false | ok true ↦ rest ]

-- `substr(0, n)`
unfoldable pub prefix : ℕ → String → String
prefix zero s = String.[]
prefix (suc n) String.[] = String.[]
prefix (suc n) (String.◌∷◌ c s) = String.◌∷◌ c (prefix n s)

-- The services that have a state, and the connection.
pub record Server (q : Sqlite) : Type 0 where
  pub mesh : Mesh
  pub seen : Seen
  pub db : q.Db

pub record DeviceState : Type 0 where
  pub device_id : String
  pub has_internet : Bool
  pub packet_count : ℕ
  pub packet_ids : List String

unfoldable pub device_state : VirtualDevice → DeviceState
unfolding prefix
device_state d = record {
  device_id = d.device_id;
  has_internet = d.has_internet;
  packet_count = packet_count d;
  packet_ids = map (λ p. prefix 8 p.packet_id) (get_held_packets d);
}

pub record FlushResult : Type 0 where
  pub bridge_node : String
  pub packet_id : String
  pub outcome : String
  pub reason : String
  pub transaction_id : ℤ

abbrev pub id_or_minus_one : Option ℤ → ℤ
id_or_minus_one none = negsuc 0
id_or_minus_one (some id) = id

unfoldable pub flush_result : BridgeUpload → IngestResult → FlushResult
unfolding prefix
flush_result up r = record {
  bridge_node = up.bridge_node_id;
  packet_id = prefix 8 up.packet.packet_id;
  outcome = r.outcome;
  reason = r.reason;
  transaction_id = id_or_minus_one r.transaction_id;
}

-- Status 400 with the message, or 200 with the result.
pub data IngestResponse : Type 0 where
  bad_request : String → IngestResponse
  ingested : IngestResult → IngestResponse

module _ (q : Sqlite) where
  -- `meshState`: the devices and `idempotencyCacheSize`.
  unfoldable pub mesh_state : Server q → List DeviceState × ℕ
  unfolding device_state
  mesh_state s = (map device_state (get_devices s.mesh), Idempotency.size s.seen)

  unfoldable pub mesh_gossip : Server q → GossipResult × Server q
  mesh_gossip s = let (result, m) = gossip_once s.mesh in (result, record s { mesh = m })

  unfoldable pub mesh_reset : Action (Server q) String
  mesh_reset s =
      let (r, d) = Database.reset q s.db in
      let s' = record s { mesh = reset_mesh s.mesh; seen = Idempotency.clear s.seen; db = d } in
      elim r [ ok u ↦ (ok "mesh and idempotency cache cleared", s') | err e ↦ (err e, s') ]

  unfoldable pub list_accounts : Action (Server q) (List Account)
  list_accounts s =
      let (accounts, d) = AccountRepository.find_all q s.db in (accounts, record s { db = d })

  unfoldable pub list_transactions : Action (Server q) (List Transaction)
  list_transactions s =
      let (txs, d) = TransactionRepository.find_top20_by_order_by_id_desc q s.db in
      (txs, record s { db = d })

  module _ (c : CryptoService) where
    -- The loop of `meshFlush`; `t` gives the readings of the clock during the i-th call of ingest.
    unfoldable pub flush_all :
        (ℕ → Readings) → ℕ → List BridgeUpload → Seen × q.Db → List FlushResult × Seen × q.Db
    unfolding flush_result
    flush_all t i [] (seen, d) = ([], seen, d)
    flush_all t i (up ∷ ups) (seen, d) =
        let (r, seen', d') =
          ingest c q (t i) up.packet up.bridge_node_id (wrap32 (pos 5 -ℤ up.packet.ttl))
            (seen, d) in
        let (results, seen'', d'') = flush_all t (suc i) ups (seen', d') in
        (flush_result up r ∷ results, seen'', d'')

    -- `meshFlush`: `uploadsAttempted` and the results.
    unfoldable pub mesh_flush : (ℕ → Readings) → Server q → (ℕ × List FlushResult) × Server q
    mesh_flush t s =
        let uploads = collect_bridge_uploads s.mesh in
        let (results, seen', d) = flush_all t 0 uploads (s.seen, s.db) in
        ((length uploads, results), record s { seen = seen'; db = d })

    module _ (http : Http) where
      open http use {Body, as_string, as_int, as_int64, stoi}

      unfoldable pub has_packet_fields : Body → Result Bool
      has_packet_fields j = has_all http j ("packetId" ∷ "ttl" ∷ "createdAt" ∷ "ciphertext" ∷ [])

      abbrev pub or_unknown : String → String
      or_unknown id = if str_eq id "" then "unknown" else id

      unfoldable pub parse_hop_count : String → Result ℤ
      parse_hop_count s = if str_eq s "" then ok (pos 0) else stoi s

      unfoldable pub read_packet : Body → Action (Server q) MeshPacket
      read_packet j = do
        packet_id ← lift (as_string j "packetId")
        ttl ← lift (as_int j "ttl")
        created_at ← lift (as_int64 j "createdAt")
        ciphertext ← lift (as_string j "ciphertext")
        pure (record {
          packet_id = packet_id;
          ttl = ttl;
          created_at = created_at;
          ciphertext = ciphertext;
        })

      abbrev pub call_ingest : Readings → MeshPacket → String → ℤ → Action (Server q) IngestResult
      call_ingest t p bridge_node_id hop_count s =
          let (r, seen', d) = ingest c q t p bridge_node_id hop_count (s.seen, s.db) in
          (ok r, record s { seen = seen'; db = d })

      unfoldable pub bridge_ingest : Readings → Request http → Action (Server q) IngestResponse
      bridge_ingest t req = elim req.json [
        | none ↦ pure (bad_request "Invalid JSON")
        | some j ↦ do
          complete ← lift (has_packet_fields j)
          if complete
              then (do
                hop_count ← lift (parse_hop_count (req.header "X-Hop-Count"))
                p ← read_packet j
                r ← call_ingest t p (or_unknown (req.header "X-Bridge-Node-Id")) hop_count
                pure (ingested r))
              else pure (bad_request "Missing required fields")
      ]
