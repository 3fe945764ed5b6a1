-- ===== src/Tests/Program.antt =====
-- main.cpp, the reset, the queries and the checking programs, on the instances of MemoryDb and ToySsl.
use upi_w_o_internet.Common.{◌≡◌, refl, some, none, true, [], ◌∷◌, arith}
use upi_w_o_internet.Common.Int.{pos, sub64}
use upi_w_o_internet.Common.Map.{keys}
use upi_w_o_internet.Common.Result.{ok}
use upi_w_o_internet.Model.Tables.{append_row}
use upi_w_o_internet.Model.Views.{Yields, stored_row}
use upi_w_o_internet.Model.Ledger.{total, IsLedger}
use upi_w_o_internet.Service.Settlement.Refinement.{at_rest}
use upi_w_o_internet.Service.Idempotency
use upi_w_o_internet.Service.Idempotency.{new_seen}
use upi_w_o_internet.Service.Mesh.{collect_bridge_uploads, seed_default_devices}
use upi_w_o_internet.Service.Mesh.Gossip.{total_packets}
use upi_w_o_internet.Controller.Api.{mesh_reset}
use upi_w_o_internet.Crypto.Base64.{base64_encode}
use upi_w_o_internet.Crypto.ServerKey.{new_server_key, get_public_key_base64}
use upi_w_o_internet.Main.{Context, start}
use upi_w_o_internet.Main.Tables.{first_store}
use upi_w_o_internet.Main.Start.{start_lem}
use upi_w_o_internet.Main.Reset.{mesh_reset_lem}
use upi_w_o_internet.Checks.Verdict.{pass, fail}
use upi_w_o_internet.Checks.Phase2.{verify_phase2, tx1}
use upi_w_o_internet.Checks.Phase2.Outcome.{verify_phase2-Yields, with_accounts}
use upi_w_o_internet.Tests.MemoryDb.{Memory, memory_db, memory_db-IsSqlite, empty_memory}
use upi_w_o_internet.Tests.ToySsl.{toy_ssl}
use upi_w_o_internet.Tests.Ledger.{demo_memory, demo_store, view_demo, alice, bob}
use upi_w_o_internet.Tests.Api.{server}
use upi_w_o_internet.Model.TransactionRepository
use upi_w_o_internet.Controller.Send.{stream_hex}
use upi_w_o_internet.Controller.Send.Hex.{stream_hex-eq-to_hex}
use upi_w_o_internet.Crypto.Hex.{to_hex}

start_lem_example :
    (c : Context memory_db toy_ssl) × (start memory_db toy_ssl ≡ ok c)
    × ((memory_db-IsSqlite).view c.server.db ≡ at_rest first_store)
    × IsLedger first_store.accounts
    × (total first_store.accounts ≡ pos 900000)
    × (c.server.seen ≡ new_seen)
    × (c.server.mesh ≡ seed_default_devices)
    × (c.server_key ≡ tt)
unfolding new_server_key get_public_key_base64 base64_encode
start_lem_example = start_lem memory_db memory_db-IsSqlite toy_ssl tt refl

mesh_reset_lem_example :
    let (r, server') = mesh_reset memory_db server in
    (r ≡ ok "mesh and idempotency cache cleared")
    × ((memory_db-IsSqlite).view server'.db ≡ at_rest demo_store)
    × (Idempotency.size server'.seen ≡ 0)
    × (keys server'.mesh ≡ keys server.mesh)
    × (total_packets server'.mesh ≡ 0)
    × (collect_bridge_uploads server'.mesh ≡ [])
mesh_reset_lem_example = mesh_reset_lem memory_db memory_db-IsSqlite server demo_store view_demo

verify_phase2-Yields_example :
    Yields memory_db memory_db-IsSqlite
      (verify_phase2 memory_db demo_memory)
      (ok (some (record { stale_view = fail; duplicate_hash = pass; exists = true })))
      (at_rest (
        append_row (stored_row tx1) (
          with_accounts memory_db memory_db-IsSqlite
            (record bob { balance = sub64 bob.balance (pos 20000) })
            (record bob { balance = sub64 bob.balance (pos 30000) })
            demo_store)))
verify_phase2-Yields_example =
    verify_phase2-Yields memory_db memory_db-IsSqlite demo_store demo_memory alice bob view_demo
      refl refl refl refl (omega arith)

-- The memory of a program that has saved its transaction.
abbrev saved_memory : Memory
saved_memory = record empty_memory {
  tables = record { current = append_row (stored_row tx1) demo_store; saved = none };
}

stream_hex-eq-to_hex_example : stream_hex (7 ∷ 255 ∷ []) ≡ to_hex (7 ∷ 255 ∷ [])
stream_hex-eq-to_hex_example = stream_hex-eq-to_hex (7 ∷ 255 ∷ []) (omega arith, (omega arith, tt))
