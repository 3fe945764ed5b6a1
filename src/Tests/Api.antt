-- ===== src/Tests/Api.antt =====
-- The handlers on a mesh whose bridge holds a packet.
use upi_w_o_internet.Common.{◌≡◌, true, [], ◌∷◌, arith}
use upi_w_o_internet.Common.Map.{insert}
use upi_w_o_internet.Model.Tables.{demo_accounts}
use upi_w_o_internet.Model.Ledger.{total, IsLedger}
use upi_w_o_internet.Service.Idempotency.{new_seen}
use upi_w_o_internet.Service.Mesh.{new_device, hold, collect_bridge_uploads, get_held_packets}
use upi_w_o_internet.Controller.Api.{Server, mesh_flush}
use upi_w_o_internet.Controller.Api.Flush.{mesh_flush-total}
use upi_w_o_internet.Service.Bridge.Keeping.{Different}
use upi_w_o_internet.Tests.MemoryDb.{memory_db, memory_db-IsSqlite}
use upi_w_o_internet.Tests.Ledger.{
  demo_memory, demo_store, view_demo, demo_accounts-IsLedger, demo_accounts_total,
}
use upi_w_o_internet.Tests.Pipeline.{open_crypto, readings, packet, pays_bob}

abbrev pub server : Server memory_db
server = record {
  mesh = ("phone-bridge", hold packet (new_device "phone-bridge" true)) ∷ [];
  seen = new_seen;
  db = demo_memory;
}

mesh_flush-total_example :
    let accounts =
      ((memory_db-IsSqlite).view
        (mesh_flush memory_db open_crypto (λ i. readings) server).1.db).current.accounts in
    (total accounts ≡ total demo_accounts) × IsLedger accounts
unfolding Different collect_bridge_uploads get_held_packets hold insert
mesh_flush-total_example =
    mesh_flush-total open_crypto memory_db memory_db-IsSqlite (λ i. readings) server demo_store
      view_demo (omega arith) demo_accounts-IsLedger demo_accounts_total (pays_bob, tt)
