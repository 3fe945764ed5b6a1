-- ===== src/Main/Serving/Invariant.antt =====
-- What holds in every state that the program can reach while it serves.
use upi_w_o_internet.Common.{ℕ, String, [], ◌≡◌, refl, sym, ◌∙◌, inl, inr, arith}
use upi_w_o_internet.Common.Int.{ℤ, pos}
use upi_w_o_internet.Common.Map.{keys}
use upi_w_o_internet.Common.Result.{ok, ok-injective}
use upi_w_o_internet.Model.Tables.{Store, demo_accounts}
use upi_w_o_internet.Model.Records.{MeshPacket}
use upi_w_o_internet.Model.Ledger.{total, IsLedger}
use upi_w_o_internet.Service.Settlement.Refinement.{at_rest}
use upi_w_o_internet.Service.Settlement.Conservation.{settle_spec-total}
use upi_w_o_internet.Service.Settlement.Once.{HasLog, settle_spec-HasLog}
use upi_w_o_internet.Service.Mesh.{seed_default_devices}
use upi_w_o_internet.Service.Bridge.{Readings}
use upi_w_o_internet.Service.Bridge.Keeping.{Different, IsKept, Rests, ingest-Rests}
use upi_w_o_internet.Controller.Api.{
  Server, mesh_gossip, mesh_flush, call_ingest, list_accounts, list_transactions,
}
use upi_w_o_internet.Controller.Api.Flush.{mesh_flush-Rests}
use upi_w_o_internet.Controller.Send.Outcome.{demo_send-Told}
use upi_w_o_internet.Crypto.ServerKey.{new_server_key}
use upi_w_o_internet.Main.{Context, start}
use upi_w_o_internet.Main.Tables.{first_store}
use upi_w_o_internet.Main.Start.{demo_accounts-IsLedger, demo_accounts-total, start_lem}
use upi_w_o_internet.Main.Reset.{mesh_reset_lem}
use upi_w_o_internet.Main.Serving.{
  Platform, Serves, sends, gossips, flushes, resets, ingests, lists_accounts, lists_transactions,
  evicts, Reach, here, next, crypto, HasIds, PaysAnother,
}
use upi_w_o_internet.Main.Serving.Steps.{
  gossip_once-keys, Told-keys, view-list_accounts, view-list_transactions, bridge_ingest-cases,
}

-- A sound ledger of Rs 9000, and a log in order.
pub record Healthy (s : Store) : Type 0 where
  pub ledger : IsLedger s.accounts
  pub money : total s.accounts ≡ pos 900000
  pub log : HasLog s

Healthy-IsKept : IsKept Healthy
Healthy-IsKept r at s different h =
    let kept = settle_spec-total r at s h.ledger (rw h.money (omega arith)) different in
    record { ledger = kept.1; money = kept.0 ∙ h.money; log = settle_spec-HasLog r at s h.log }

module _ (on : Platform) (key : (on.ssl).Key) where
  open on use {q, laws, ssl, json, io, sha256, http, as_double}

  -- No SQL transaction is open, the tables are healthy, and the five devices are there.
  pub record IsServing (s : Server q) : Type 0 where
    pub store : Store
    pub at : laws.view s.db ≡ at_rest store
    pub healthy : Healthy store
    pub devices : keys s.mesh ≡ keys seed_default_devices

  Rests-IsServing :
      (n : ℕ) (s s' : Server q) (store : Store)
      → Rests Healthy n store (laws.view s'.db)
      → keys s.mesh ≡ keys seed_default_devices
      → keys s'.mesh ≡ keys s.mesh
      → IsServing s'
  Rests-IsServing n s s' store end devices same = record {
    store = end.store;
    at = end.at;
    healthy = end.kept;
    devices = same ∙ devices;
  }

  upload-IsServing :
      (t : Readings) (p : MeshPacket) (b : String) (n : ℤ) (s : Server q)
      → HasIds on key 1 s
      → Different (crypto on key) q p.ciphertext
      → IsServing s
      → IsServing (call_ingest q (crypto on key) http t p b n s).1
  upload-IsServing t p b n s ids different i =
      Rests-IsServing 1 s (call_ingest q (crypto on key) http t p b n s).1 i.store
        (ingest-Rests Healthy Healthy-IsKept (crypto on key) q laws t p b n s.seen i.store s.db i.at
          (omega (arith, rw i.at at ids)) different i.healthy)
        i.devices refl

  -- Each call of a handler and each round of the evictor.
  Serves-IsServing : {s s' : Server q} → Serves on key s s' → IsServing s → IsServing s'
  unfolding mesh_gossip mesh_flush list_accounts list_transactions PaysAnother
  Serves-IsServing {s} (sends w req) i = record {
    store = i.store;
    at = i.at;
    healthy = i.healthy;
    devices =
        Told-keys w s.mesh _ (demo_send-Told ssl json io key sha256 http as_double w req s.mesh)
        ∙ i.devices;
  }
  Serves-IsServing {s} gossips i = record {
    store = i.store;
    at = i.at;
    healthy = i.healthy;
    devices = gossip_once-keys s.mesh ∙ i.devices;
  }
  Serves-IsServing {s} {s'} (flushes t ids different) i =
      Rests-IsServing _ s s' i.store
        (mesh_flush-Rests Healthy Healthy-IsKept (crypto on key) q laws t s i.store i.at
          (rw i.at at ids) different i.healthy)
        i.devices refl
  Serves-IsServing {s} resets i =
      let (done, at, empty, same, none_held, no_uploads) = mesh_reset_lem q laws s i.store i.at in
      record {
        store = record i.store { accounts = demo_accounts; transactions = [] };
        at = at;
        healthy = record {
          ledger = demo_accounts-IsLedger;
          money = demo_accounts-total;
          log = omega arith;
        };
        devices = same ∙ i.devices;
      }
  Serves-IsServing {s} (ingests t req ids pays) i =
      elim (bridge_ingest-cases q (crypto on key) http t req s) [
        | inl same ↦ rw same i
        | inr (j, p, b, n, body, text, e) ↦
            rw e (upload-IsServing t p b n s ids (pays j p.ciphertext body text) i)
      ]
  Serves-IsServing {s} lists_accounts i = record {
    store = i.store;
    at = view-list_accounts q laws s ∙ i.at;
    healthy = i.healthy;
    devices = i.devices;
  }
  Serves-IsServing {s} lists_transactions i = record {
    store = i.store;
    at = view-list_transactions q laws s ∙ i.at;
    healthy = i.healthy;
    devices = i.devices;
  }
  Serves-IsServing (evicts now) i = record {
    store = i.store;
    at = i.at;
    healthy = i.healthy;
    devices = i.devices;
  }

  Reach-keeps : {s s' : Server q} → Reach on key s s' → IsServing s → IsServing s'
  Reach-keeps here i = i
  Reach-keeps (next r step) i = Serves-IsServing step (Reach-keeps r i)

-- In every state that the program reaches after it has started, by any sequence of requests to its
-- handlers and rounds of the evictor in which one ends before the next begins, no SQL transaction is
-- open, the balances are not negative and add up to Rs 9000, no VPA is doubled, no packet hash stands
-- twice in the log, its ids rise up to the sequence, and the five devices are there; if the
-- instructions in the uploads are between different accounts and the ids stay below 2^63.
pub Reach-IsServing :
    (on : Platform) (key : (on.ssl).Key)
    → (new_server_key on.ssl 0).0 ≡ ok key
    → (c : Context on.q on.ssl) (s : Server on.q) → start on.q on.ssl ≡ ok c
    → Reach on key c.server s
    → IsServing on key s
Reach-IsServing on key made c s started r =
    let (c', e, at, ledger, money, seen, mesh, same_key) = start_lem on.q on.laws on.ssl key made in
    let same : c ≡ c' = ok-injective (sym started ∙ e) in
    Reach-keeps on key r (record {
      store = first_store;
      at = rw same at;
      healthy = record { ledger = ledger; money = money; log = omega arith };
      devices = rw (same, mesh) refl;
    })
