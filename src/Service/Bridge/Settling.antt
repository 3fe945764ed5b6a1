-- ===== src/Service/Bridge/Settling.antt =====
-- The way through the pipeline of a packet that nothing stops.
use upi_w_o_internet.Common.{
  suc, String, ◌≡◌, refl, ap, ◌∙◌, ◌≢◌, true, false, none, some, arith, if◌then◌else◌,
}
use upi_w_o_internet.Common.Int.{ℤ, pos, ◌+ℤ◌, ◌-ℤ◌, ◌≤ℤ◌, ◌<ℤ◌}
use upi_w_o_internet.Common.Map.{lookup}
use upi_w_o_internet.Common.Result.{ok}
use upi_w_o_internet.Common.Text.{c_str, str_eq}
use upi_w_o_internet.Model.Records.{Account, MeshPacket, PaymentInstruction, status_to_string}
use upi_w_o_internet.Model.Sqlite.{Sqlite}
use upi_w_o_internet.Model.Tables.{Store, find_account, has_hash}
use upi_w_o_internet.Model.Documented.{IsSqlite}
use upi_w_o_internet.Model.Views.{stored_account}
use upi_w_o_internet.Model.Ledger.{IsLedger}
use upi_w_o_internet.Service.Idempotency.{Seen, claim}
use upi_w_o_internet.Service.Settlement.{Request, settle}
use upi_w_o_internet.Service.Settlement.Spec.{settle_spec-covered}
use upi_w_o_internet.Service.Settlement.Refinement.{at_rest, HasRoom, settle-refines}
use upi_w_o_internet.Service.Settlement.Conservation.{Fits, settle-moves}
use upi_w_o_internet.Service.Bridge.{
  CryptoService, IngestResult, Readings, ingest, ingest_claimed, read_instruction, freshness,
  settled_result,
}
use upi_w_o_internet.Service.Bridge.Pipeline.{ingest-first}

-- The result for a payment that was made as row `id`.
abbrev pub paid_result : String → ℤ → IngestResult
paid_result packet_hash id = record {
  outcome = "SETTLED";
  packet_hash = packet_hash;
  reason = "";
  transaction_id = some id;
}

claim-unheld : (h : String) (now : ℤ) (s : Seen) → lookup h s.seen ≡ none → (claim now h s).0 ≡ true
unfolding claim
claim-unheld h now s e = ground arith

module _ (c : CryptoService) (q : Sqlite) where
  open c use {hash_ciphertext}
  open q use {Db}

  ingest-settle :
      (t : Readings) (p : MeshPacket) (b : String) (n : ℤ) (s : Seen) (d : Db) (h : String)
      (i : PaymentInstruction)
      → hash_ciphertext p.ciphertext ≡ ok h
      → lookup h s.seen ≡ none
      → read_instruction c q p.ciphertext ≡ ok i
      → freshness t.checked_at i.signed_at ≡ none
      → let end =
          settle q
            (record { instruction = i; packet_hash = h; bridge_node_id = b; hop_count = n })
            t.settled_at
            d in
        ingest c q t p b n (s, d) ≡ (settled_result c q h end.0, (claim t.claimed_at h s).1, end.1)
  unfolding ingest_claimed
  ingest-settle t p b n s d h i hashes unheld reads fresh =
      rw (ingest-first c q t p b n s d h hashes (claim-unheld h t.claimed_at s unheld))
        (rw (reads, ingest_claimed) (rw (fresh, ingest_claimed) refl))

module _ (c : CryptoService) (q : Sqlite) (laws : IsSqlite q) where
  open c use {hash_ciphertext}
  open laws use {view}

  -- What an upload does that passes every check.
  pub ingest-settles :
      (t : Readings) (p : MeshPacket) (b : String) (n : ℤ) (seen : Seen) (s : Store) (d : q.Db)
      (h : String) (i : PaymentInstruction) (sender receiver : Account)
      → view d ≡ at_rest s
      → HasRoom s
      → IsLedger s.accounts
      → Fits s.accounts
      → hash_ciphertext p.ciphertext ≡ ok h
      → lookup h seen.seen ≡ none
      → has_hash (c_str h) s.transactions ≡ false
      → read_instruction c q p.ciphertext ≡ ok i
      → freshness t.checked_at i.signed_at ≡ none
      → c_str i.sender_vpa ≢ c_str i.receiver_vpa
      → find_account (c_str i.sender_vpa) s.accounts ≡ some sender
      → find_account (c_str i.receiver_vpa) s.accounts ≡ some receiver
      → pos 0 <ℤ i.amount
      → i.amount ≤ℤ sender.balance
      → (k : String)
      → let (res, seen', d') = ingest c q t p b n (seen, d) in
        (res ≡ paid_result h (pos (suc s.sequence)))
        × (find_account k (view d').current.accounts ≡ (
            if str_eq (c_str i.receiver_vpa) k
            then some (stored_account (record receiver { balance = receiver.balance +ℤ i.amount }))
            else if str_eq (c_str i.sender_vpa) k
            then some (stored_account (record sender { balance = sender.balance -ℤ i.amount }))
            else find_account k s.accounts))
  unfolding status_to_string
  ingest-settles t p b n seen s d h i sender receiver e room ledger fits hashes unheld new reads
        fresh differ es er positive covered k =
      let r : Request = record {
        instruction = i;
        packet_hash = h;
        bridge_node_id = b;
        hop_count = n;
      } in
      let refines = settle-refines q laws r t.settled_at s d e room in
      let paid =
        settle_spec-covered r (t.settled_at 1) s sender receiver es er positive covered new in
      rw (ingest-settle c q t p b n seen d h i hashes unheld reads fresh) (
        ap (settled_result c q h) (refines.0 ∙ ap (λ end. end.0) paid),
        settle-moves q laws r t.settled_at s d sender receiver e room ledger fits differ es er
            positive covered new k,
      )
