-- ===== src/Controller/Api/Flush.antt =====
-- ApiController::meshFlush: a flush of any number of uploads, and the money.
use upi_w_o_internet.Common.{ℕ, suc, ◌+◌, ◌<◌, ◌≡◌, refl, ◌∙◌, List, [], ◌∷◌, length, All, arith}
use upi_w_o_internet.Common.Int.{pos, ◌-ℤ◌, wrap32, half64}
use upi_w_o_internet.Model.Sqlite.{Sqlite}
use upi_w_o_internet.Model.Tables.{Store}
use upi_w_o_internet.Model.Documented.{IsSqlite}
use upi_w_o_internet.Model.Ledger.{total, IsLedger}
use upi_w_o_internet.Service.Idempotency.{Seen}
use upi_w_o_internet.Service.Settlement.Refinement.{at_rest}
use upi_w_o_internet.Service.Settlement.Conservation.{Fits, settle_spec-total}
use upi_w_o_internet.Service.Mesh.{BridgeUpload, collect_bridge_uploads}
use upi_w_o_internet.Service.Bridge.{CryptoService, Readings, ingest}
use upi_w_o_internet.Service.Bridge.Keeping.{Different, IsKept, Rests, ingest-Rests}
use upi_w_o_internet.Controller.Api.{Server, flush_all, mesh_flush}

-- The instructions in the uploads are between different accounts.
abbrev pub AllDifferent : (c : CryptoService) (q : Sqlite) → List BridgeUpload → Type 0
AllDifferent c q ups = All (λ up. Different c q up.packet.ciphertext) ups

module _ (P : Store → Type 0) (keeps : IsKept P) (c : CryptoService) (q : Sqlite)
    (laws : IsSqlite q) where
  open laws use {view}

  flush_all-Rests :
      (t : ℕ → Readings) (i : ℕ) (ups : List BridgeUpload) (seen : Seen) (s : Store) (d : q.Db)
      → view d ≡ at_rest s
      → s.sequence + length ups < half64
      → AllDifferent c q ups
      → P s
      → Rests P (length ups) s (view (flush_all q c t i ups (seen, d)).2)
  unfolding flush_all
  flush_all-Rests t i [] seen s d e room different h = record {
    store = s;
    at = e;
    used = omega arith;
    kept = h;
  }
  flush_all-Rests t i (up ∷ ups) seen s d e room (first, others) h =
      let hops = wrap32 (pos 5 -ℤ up.packet.ttl) in
      let call = ingest c q (t i) up.packet up.bridge_node_id hops (seen, d) in
      let one =
        ingest-Rests P keeps c q laws (t i) up.packet up.bridge_node_id hops seen s d e
          (omega (arith, room)) first h in
      let more =
        flush_all-Rests t (suc i) ups call.1 one.store call.2 one.at (omega (arith, room, one.used))
          others one.kept in
      record {
        store = more.store;
        at = more.at;
        used = omega (arith, one.used, more.used);
        kept = more.kept;
      }

  pub mesh_flush-Rests :
      (t : ℕ → Readings) (server : Server q) (s : Store)
      → view server.db ≡ at_rest s
      → s.sequence + length (collect_bridge_uploads server.mesh) < half64
      → AllDifferent c q (collect_bridge_uploads server.mesh)
      → P s
      → Rests P
          (length (collect_bridge_uploads server.mesh))
          s
          (view (mesh_flush q c t server).1.db)
  unfolding mesh_flush
  mesh_flush-Rests t server s e room different h =
      flush_all-Rests t 0 (collect_bridge_uploads server.mesh) server.seen s server.db e room
        different h

module _ (c : CryptoService) (q : Sqlite) (laws : IsSqlite q) where
  open laws use {view}

  -- A flush neither makes nor loses money, overdraws no account and doubles none, however many
  -- uploads the devices hold, duplicates included, if the instruction in each, if any, is between
  -- two different accounts; on a sound ledger whose sum fits 64 bits, with no SQL transaction open
  -- and an id left for each upload.
  pub mesh_flush-total :
      (t : ℕ → Readings) (server : Server q) (s : Store)
      → view server.db ≡ at_rest s
      → s.sequence + length (collect_bridge_uploads server.mesh) < half64
      → IsLedger s.accounts
      → Fits s.accounts
      → AllDifferent c q (collect_bridge_uploads server.mesh)
      → let accounts = (view (mesh_flush q c t server).1.db).current.accounts in
        (total accounts ≡ total s.accounts) × IsLedger accounts
  mesh_flush-total t server s e room ledger fits different =
      let end =
        mesh_flush-Rests (λ s'. (total s'.accounts ≡ total s.accounts) × IsLedger s'.accounts)
          (λ r at s' n h.
            let kept = settle_spec-total r at s' h.1 (rw h.0 fits) n in (kept.0 ∙ h.0, kept.1))
          c q laws t server s e room different (refl, ledger) in
      rw end.at end.kept
