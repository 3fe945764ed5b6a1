-- ===== src/Main.antt =====
-- main.cpp: what the program builds before it serves, and the headers that it adds to each response.
pub mod Tables
pub mod Start
pub mod Reset
pub mod Serving
use upi_w_o_internet.Common.{String, List, [], ◌∷◌, ◌++◌}
use upi_w_o_internet.Common.Result.{Result, ok, err}
use upi_w_o_internet.Model.Sqlite.{Sqlite}
use upi_w_o_internet.Model.Database
use upi_w_o_internet.Service.Idempotency.{new_seen}
use upi_w_o_internet.Service.Mesh.{seed_default_devices}
use upi_w_o_internet.Crypto.OpenSsl.{OpenSsl}
use upi_w_o_internet.Crypto.ServerKey.{new_server_key}
use upi_w_o_internet.Controller.Api.{Server}

-- AppContext, with the key pair that the crypto service holds.
pub record Context (q : Sqlite) (ssl : OpenSsl) : Type 0 where
  pub server : Server q
  pub server_key : ssl.Key

-- Steps 1 to 5 of `main`. The services that keep no state of their own are their functions.
unfoldable pub start : (q : Sqlite) (ssl : OpenSsl) → Result (Context q ssl)
start q ssl =
    let (opened, d) = Database.new_database q in
    elim opened [
      | err e ↦ err e
      | ok u ↦ elim (new_server_key ssl 0).0 [
        | err e ↦ err e
        | ok key ↦ ok (record {
          server = record { mesh = seed_default_devices; seen = new_seen; db = d };
          server_key = key;
        })
      ]
    ]

-- Step 6: the advice that runs after each handler.
unfoldable pub add_cors_headers : List (String × String) → List (String × String)
add_cors_headers headers =
    headers
    ++ ("Access-Control-Allow-Origin", "*")
      ∷ ("Access-Control-Allow-Methods", "GET, POST, OPTIONS")
      ∷ ("Access-Control-Allow-Headers", "Content-Type, X-Bridge-Node-Id, X-Hop-Count")
      ∷ []
