-- ===== src/Main/Reset.antt =====
-- ApiController::meshReset.
use upi_w_o_internet.Common.{◌≡◌, refl, [], ◌∷◌, ap, arith}
use upi_w_o_internet.Common.Map.{keys}
use upi_w_o_internet.Common.Result.{ok}
use upi_w_o_internet.Model.Sqlite.{Sqlite}
use upi_w_o_internet.Model.Documented.{IsSqlite}
use upi_w_o_internet.Model.Tables.{Store, demo_accounts}
use upi_w_o_internet.Service.Settlement.Refinement.{at_rest}
use upi_w_o_internet.Service.Idempotency
use upi_w_o_internet.Service.Mesh.{
  Mesh, reset_mesh, collect_bridge_uploads, clear, packet_count, get_held_packets,
}
use upi_w_o_internet.Service.Mesh.Gossip.{total_packets}
use upi_w_o_internet.Controller.Api.{Server, mesh_reset}
use upi_w_o_internet.Main.Tables.{reset-Yields}

total_packets-reset_mesh : (m : Mesh) → total_packets (reset_mesh m) ≡ 0
unfolding total_packets reset_mesh clear packet_count
total_packets-reset_mesh [] = refl
total_packets-reset_mesh ((k, d) ∷ m) = omega (arith, total_packets-reset_mesh m)

keys-reset_mesh : (m : Mesh) → keys (reset_mesh m) ≡ keys m
unfolding reset_mesh
keys-reset_mesh [] = refl
keys-reset_mesh ((k, d) ∷ m) = ap (◌∷◌ k) (keys-reset_mesh m)

uploads-reset_mesh : (m : Mesh) → collect_bridge_uploads (reset_mesh m) ≡ []
unfolding reset_mesh collect_bridge_uploads clear get_held_packets
uploads-reset_mesh [] = refl
uploads-reset_mesh ((k, d) ∷ m) = ground (arith, uploads-reset_mesh m)

-- A reset succeeds and leaves the demo accounts, an empty log, no claimed hash, and the same devices
-- with no packets and nothing to upload; the ids that were given out are not given out again; if no
-- SQL transaction was open.
pub mesh_reset_lem :
    (q : Sqlite) (laws : IsSqlite q) (server : Server q) (s : Store)
    → laws.view server.db ≡ at_rest s
    → let (r, server') = mesh_reset q server in
      (r ≡ ok "mesh and idempotency cache cleared")
      × (laws.view server'.db ≡ at_rest (record s { accounts = demo_accounts; transactions = [] }))
      × (Idempotency.size server'.seen ≡ 0)
      × (keys server'.mesh ≡ keys server.mesh)
      × (total_packets server'.mesh ≡ 0)
      × (collect_bridge_uploads server'.mesh ≡ [])
unfolding mesh_reset Idempotency.size Idempotency.clear
mesh_reset_lem q laws server s e =
    let p = reset-Yields q laws s server.db e in
    let m = server.mesh in
    rw (p.0, mesh_reset)
      (refl, p.1, refl, keys-reset_mesh m, total_packets-reset_mesh m, uploads-reset_mesh m)
