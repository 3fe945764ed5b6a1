-- ===== src/Main/Start.antt =====
-- The server that main.cpp starts.
use upi_w_o_internet.Common.{◌≡◌, refl, arith}
use upi_w_o_internet.Common.Int.{pos, ◌+ℤ◌}
use upi_w_o_internet.Common.Result.{ok}
use upi_w_o_internet.Model.Sqlite.{Sqlite}
use upi_w_o_internet.Model.Database
use upi_w_o_internet.Model.Documented.{IsSqlite}
use upi_w_o_internet.Model.Tables.{demo_accounts}
use upi_w_o_internet.Model.Ledger.{total, IsLedger}
use upi_w_o_internet.Service.Settlement.Refinement.{at_rest}
use upi_w_o_internet.Service.Idempotency.{new_seen}
use upi_w_o_internet.Service.Mesh.{seed_default_devices}
use upi_w_o_internet.Crypto.OpenSsl.{OpenSsl}
use upi_w_o_internet.Crypto.ServerKey.{new_server_key}
use upi_w_o_internet.Main.{Context, start}
use upi_w_o_internet.Main.Tables.{first_store, new_database-Yields}

pub demo_accounts-IsLedger : IsLedger demo_accounts
demo_accounts-IsLedger = ground arith

pub demo_accounts-total : total demo_accounts ≡ pos 900000
unfolding ◌+ℤ◌
demo_accounts-total = refl

-- `main` comes to serve, if the key pair can be generated: with no SQL transaction open, the demo
-- accounts, which are a sound ledger of Rs 9000, an empty log with no id used, no claimed hash, and
-- five devices that hold nothing.
pub start_lem :
    (q : Sqlite) (laws : IsSqlite q) (ssl : OpenSsl) (key : ssl.Key)
    → (new_server_key ssl 0).0 ≡ ok key
    → (c : Context q ssl) × (start q ssl ≡ ok c)
      × (laws.view c.server.db ≡ at_rest first_store)
      × IsLedger first_store.accounts
      × (total first_store.accounts ≡ pos 900000)
      × (c.server.seen ≡ new_seen)
      × (c.server.mesh ≡ seed_default_devices)
      × (c.server_key ≡ key)
unfolding start
start_lem q laws ssl key made =
    let p = new_database-Yields q laws in
    (
      record {
        server = record {
          mesh = seed_default_devices;
          seen = new_seen;
          db = (Database.new_database q).1;
        };
        server_key = key;
      },
      rw (p.0, start) (rw (made, start) refl),
      p.1,
      demo_accounts-IsLedger,
      demo_accounts-total,
      refl,
      refl,
      refl,
    )
