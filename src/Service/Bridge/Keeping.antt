-- ===== src/Service/Bridge/Keeping.antt =====
-- The pipeline keeps what the specification of `settle` keeps.
use upi_w_o_internet.Common.{ℕ, ◌+◌, ◌≤◌, String, ◌≡◌, ◌≢◌, refl, arith}
use upi_w_o_internet.Common.Int.{ℤ}
use upi_w_o_internet.Common.Result.{Result, ok, err}
use upi_w_o_internet.Common.Text.{c_str}
use upi_w_o_internet.Model.Records.{MeshPacket, PaymentInstruction, Transaction}
use upi_w_o_internet.Model.Sqlite.{Sqlite}
use upi_w_o_internet.Model.Tables.{Store, Tables}
use upi_w_o_internet.Model.Documented.{IsSqlite}
use upi_w_o_internet.Service.Idempotency.{Seen}
use upi_w_o_internet.Service.Settlement.{Request}
use upi_w_o_internet.Service.Settlement.Spec.{settle_spec}
use upi_w_o_internet.Service.Settlement.Refinement.{at_rest, HasRoom}
use upi_w_o_internet.Service.Settlement.Once.{Ends, settle_spec-Ends}
use upi_w_o_internet.Service.Bridge.{CryptoService, Readings, ingest, read_instruction}
use upi_w_o_internet.Service.Bridge.Pipeline.{ingest-cases}

-- The instruction in a ciphertext, if any, is between two different accounts.
unfoldable pub Different : (c : CryptoService) (q : Sqlite) → String → Type 0
Different c q ciphertext =
    (i : PaymentInstruction)
    → read_instruction c q ciphertext ≡ ok i
    → c_str i.sender_vpa ≢ c_str i.receiver_vpa

-- What every settlement between two accounts keeps.
abbrev pub IsKept : (Store → Type 0) → Type 0
IsKept P =
    (r : Request) (at : ℤ) (s : Store)
    → c_str r.instruction.sender_vpa ≢ c_str r.instruction.receiver_vpa
    → P s
    → P (settle_spec r at s).1

-- The tables are at rest, at most `n` ids were used, and `P` holds of them.
pub record Rests (P : Store → Type 0) (n : ℕ) (s : Store) (end : Tables) : Type 0 where
  pub store : Store
  pub at : end ≡ at_rest store
  pub used : store.sequence ≤ n + s.sequence
  pub kept : P store

end-sequence :
    (s : Store) (end : Result Transaction × Store) → Ends s end → end.1.sequence ≤ 1 + s.sequence
end-sequence s (ok tx, s') f = omega (arith, f.1)
end-sequence s (err x, s') f = rw f (omega arith)

module _ (P : Store → Type 0) (keeps : IsKept P) (c : CryptoService) (q : Sqlite)
    (laws : IsSqlite q) where
  open laws use {view}

  pub ingest-Rests :
      (t : Readings) (p : MeshPacket) (b : String) (n : ℤ) (seen : Seen) (s : Store) (d : q.Db)
      → view d ≡ at_rest s
      → HasRoom s
      → Different c q p.ciphertext
      → P s
      → Rests P 1 s (view (ingest c q t p b n (seen, d)).2)
  unfolding Different
  ingest-Rests t p b n seen s d e room different h =
      ingest-cases c q laws t p b n seen s d e room (λ res end. Rests P 1 s end)
        (λ res g. record { store = s; at = refl; used = omega arith; kept = h })
        λ hash i f g f' g'. record {
          store = _;
          at = refl;
          used = end-sequence s _ (settle_spec-Ends _ (t.settled_at 1) s);
          kept = keeps _ (t.settled_at 1) s (different i f') h;
        }
