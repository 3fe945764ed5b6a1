-- ===== src/Controller/Routes.antt =====
-- The table of routes in controller/ApiController.h.
use upi_w_o_internet.Common.{String, List, [], ◌∷◌}

pub data Method : Type 0 where
  get post : Method

pub data Handler : Type 0 where
  get_server_key demo_send mesh_state mesh_gossip mesh_flush mesh_reset bridge_ingest : Handler
  list_accounts list_transactions : Handler

pub record Route : Type 0 where
  pub handler : Handler
  pub path : String
  pub method : Method

unfoldable pub routes : List Route
routes =
    record { handler = get_server_key; path = "/api/server-key"; method = get }
    ∷ record { handler = demo_send; path = "/api/demo/send"; method = post }
    ∷ record { handler = mesh_state; path = "/api/mesh/state"; method = get }
    ∷ record { handler = mesh_gossip; path = "/api/mesh/gossip"; method = post }
    ∷ record { handler = mesh_flush; path = "/api/mesh/flush"; method = post }
    ∷ record { handler = mesh_reset; path = "/api/mesh/reset"; method = post }
    ∷ record { handler = bridge_ingest; path = "/api/bridge/ingest"; method = post }
    ∷ record { handler = list_accounts; path = "/api/accounts"; method = get }
    ∷ record { handler = list_transactions; path = "/api/transactions"; method = get }
    ∷ []
