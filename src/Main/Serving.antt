-- ===== src/Main/Serving.antt =====
-- The program while it serves: requests to the handlers and rounds of the evictor, in any order, each
-- one ended before the next one begins. Drogon runs handlers on 16 threads; schedules in which
-- calls of `settle` overlap are those of Service.Settlement.Threads and Interleaving.
pub mod Steps
pub mod Invariant
use upi_w_o_internet.Common.{◌+◌, ◌<◌, ℕ, String, ◌≡◌, some, length}
use upi_w_o_internet.Common.Int.{ℤ, half64}
use upi_w_o_internet.Common.Bytes.{Bytes}
use upi_w_o_internet.Common.Result.{Result, ok}
use upi_w_o_internet.Model.Sqlite.{Sqlite}
use upi_w_o_internet.Model.Documented.{IsSqlite}
use upi_w_o_internet.Model.Json.{Json}
use upi_w_o_internet.Service.Idempotency.{evict_expired}
use upi_w_o_internet.Service.Mesh.{Mesh, collect_bridge_uploads}
use upi_w_o_internet.Service.Bridge.{CryptoService, Readings}
use upi_w_o_internet.Service.Bridge.Keeping.{Different}
use upi_w_o_internet.Crypto.OpenSsl.{OpenSsl}
use upi_w_o_internet.Crypto.Service.{Serializer, hybrid_service}
use upi_w_o_internet.Controller.Api.{
  Http, Request, Server, mesh_gossip, mesh_flush, mesh_reset, bridge_ingest, list_accounts,
  list_transactions,
}
use upi_w_o_internet.Controller.Api.Flush.{AllDifferent}
use upi_w_o_internet.Controller.Send.{World, demo_send}

-- What the program is built on.
pub record Platform : Type 1 where
  pub q : Sqlite
  pub laws : IsSqlite q
  pub ssl : OpenSsl
  pub json : Json
  pub io : Serializer json
  pub sha256 : Bytes → Bytes
  pub http : Http
  pub as_double : http.Body → String → Result json.Double

module _ (on : Platform) (key : (on.ssl).Key) where
  open on use {q, laws, ssl, json, io, sha256, http, as_double}

  abbrev pub crypto : CryptoService
  crypto = hybrid_service ssl json io key

  -- `n` ids are left.
  abbrev pub HasIds : ℕ → Server q → Type 0
  HasIds n s = ((laws.view s.db).current.sequence + n < half64)

  -- The ciphertext in the body, if any, pays between two different accounts.
  unfoldable pub PaysAnother : Request http → Type 0
  PaysAnother req =
      (j : http.Body) (ciphertext : String)
      → req.json ≡ some j
      → http.as_string j "ciphertext" ≡ ok ciphertext
      → Different crypto q ciphertext

  abbrev pub send_to : World → Request http → Mesh → Mesh
  send_to w req m = (demo_send ssl json io key sha256 http as_double w req m).1

  -- A handler's call, or a round of the evictor. `getServerKey` and `meshState` change nothing.
  pub data Serves (s : Server q) : Server q → Type 0 where
    sends : (w : World) (req : Request http) → Serves s (record s { mesh = send_to w req s.mesh })
    gossips : Serves s (mesh_gossip q s).1
    flushes :
        (t : ℕ → Readings)
        → HasIds (length (collect_bridge_uploads s.mesh)) s
        → AllDifferent crypto q (collect_bridge_uploads s.mesh)
        → Serves s (mesh_flush q crypto t s).1
    resets : Serves s (mesh_reset q s).1
    ingests :
        (t : Readings) (req : Request http)
        → HasIds 1 s
        → PaysAnother req
        → Serves s (bridge_ingest q crypto http t req s).1
    lists_accounts : Serves s (list_accounts q s).1
    lists_transactions : Serves s (list_transactions q s).1
    evicts : (now : ℤ) → Serves s (record s { seen = evict_expired now s.seen })

  pub data Reach (s : Server q) : Server q → Type 0 where
    here : Reach s s
    next : {t u : Server q} → Reach s t → Serves t u → Reach s u
