-- ===== src/Service/Bridge/Pipeline.antt =====
-- The pipeline as a whole: what gets through, and what a packet can change.
use upi_w_o_internet.Common.{
  suc, String, ◌≡◌, refl, sym, ap, ◌∙◌, ◌≢◌, ◌⊎◌, inl, inr, true, false, none, some, Bool-cases,
  Option-cases,
}
use upi_w_o_internet.Common.Int.{ℤ, pos}
use upi_w_o_internet.Common.Map.{lookup}
use upi_w_o_internet.Common.Result.{Result, Result-cases, ok-injective, ok, err, Exception}
use upi_w_o_internet.Common.Text.{c_str}
use upi_w_o_internet.Model.Records.{MeshPacket, PaymentInstruction, Transaction}
use upi_w_o_internet.Model.Sqlite.{Sqlite}
use upi_w_o_internet.Model.Tables.{Store, Tables, has_hash}
use upi_w_o_internet.Model.Documented.{IsSqlite}
use upi_w_o_internet.Model.Ledger.{total, IsLedger}
use upi_w_o_internet.Service.Idempotency.{Seen, claim}
use upi_w_o_internet.Service.Idempotency.Laws.{claim-claim, claim-first}
use upi_w_o_internet.Service.Settlement.{Request, settle}
use upi_w_o_internet.Service.Settlement.Spec.{settle_spec}
use upi_w_o_internet.Service.Settlement.Refinement.{at_rest, HasRoom, settle-refines}
use upi_w_o_internet.Service.Settlement.Conservation.{Fits, settle_spec-total}
use upi_w_o_internet.Service.Settlement.Once.{Ends, settle_spec-Ends, settle_spec-known}
use upi_w_o_internet.Service.Bridge.{
  CryptoService, IngestResult, Readings, ingest, ingest_claimed, read_instruction, freshness,
  duplicate_result, settled_result, invalid_result, internal_error,
}

module _ (c : CryptoService) (q : Sqlite) where
  open c use {hash_ciphertext}
  open q use {Db}

  pub ingest-first :
      (t : Readings) (p : MeshPacket) (b : String) (n : ℤ) (s : Seen) (d : Db) (h : String)
      → hash_ciphertext p.ciphertext ≡ ok h
      → (claim t.claimed_at h s).0 ≡ true
      → ingest c q t p b n (s, d) ≡ (
        (ingest_claimed c q t p b n h d).0,
        (claim t.claimed_at h s).1,
        (ingest_claimed c q t p b n h d).1,
      )
  unfolding ingest
  ingest-first t p b n s d h e first = rw (e, ingest) (rw (first, ingest) refl)

  ingest-later :
      (t : Readings) (p : MeshPacket) (b : String) (n : ℤ) (s : Seen) (d : Db) (h : String)
      → hash_ciphertext p.ciphertext ≡ ok h
      → (claim t.claimed_at h s).0 ≡ false
      → ingest c q t p b n (s, d) ≡ (duplicate_result h, (claim t.claimed_at h s).1, d)
  unfolding ingest
  ingest-later t p b n s d h e late = rw (e, ingest) (rw (late, ingest) refl)

  ingest-failed :
      (t : Readings) (p : MeshPacket) (b : String) (n : ℤ) (s : Seen) (d : Db) (x : Exception)
      → hash_ciphertext p.ciphertext ≡ err x
      → ingest c q t p b n (s, d) ≡ (internal_error x, s, d)
  unfolding ingest
  ingest-failed t p b n s d x e = rw (e, ingest) refl

  -- Whatever became of a packet, the next upload of a ciphertext with the same hash is dropped as a
  -- duplicate, by any bridge and with any hop count, and changes nothing.
  pub ingest-replay :
      (t t' : Readings) (p p' : MeshPacket) (b b' : String) (n n' : ℤ) (s : Seen) (d : Db)
      (h : String)
      → hash_ciphertext p.ciphertext ≡ ok h
      → hash_ciphertext p'.ciphertext ≡ ok h
      → let (res, s', d') = ingest c q t p b n (s, d) in
        ingest c q t' p' b' n' (s', d') ≡ (duplicate_result h, s', d')
  ingest-replay t t' p p' b b' n n' s d h e e' =
      let again = claim-claim h t.claimed_at t'.claimed_at s in
      elim (Bool-cases (claim t.claimed_at h s).0) [
        | inl first ↦ rw (ingest-first t p b n s d h e first) (
            ingest-later t' p' b' n' _ _ h e' (ap (λ x. x.0) again)
            ∙ ap (λ x. (duplicate_result h, x.1, (ingest_claimed c q t p b n h d).1)) again)
        | inr late ↦ rw (ingest-later t p b n s d h e late) (
            ingest-later t' p' b' n' _ _ h e' (ap (λ x. x.0) again)
            ∙ ap (λ x. (duplicate_result h, x.1, d)) again)
      ]

  -- To prove something of every way in which the pipeline can end.
  ingest_claimed-cases {ℓ} :
      (P : IngestResult × Db → Type ℓ) (t : Readings) (p : MeshPacket) (b : String) (n : ℤ)
      (h : String) (d : Db)
      → ((reason : String) → P (invalid_result h reason, d))
      → ((i : PaymentInstruction)
          → read_instruction c q p.ciphertext ≡ ok i
          → freshness t.checked_at i.signed_at ≡ none
          → let end =
              settle q
                (record { instruction = i; packet_hash = h; bridge_node_id = b; hop_count = n })
                t.settled_at
                d in
            P (settled_result c q h end.0, end.1))
      → P (ingest_claimed c q t p b n h d)
  unfolding ingest_claimed
  ingest_claimed-cases P t p b n h d invalid run =
      elim (Result-cases (read_instruction c q p.ciphertext)) [
        | inr (x, e) ↦ rw (e, ingest_claimed) (invalid _)
        | inl (i, e) ↦ elim (Option-cases (freshness t.checked_at i.signed_at)) [
          | inr (reason, f) ↦ rw (e, ingest_claimed) (rw (f, ingest_claimed) (invalid reason))
          | inl f ↦ rw (e, ingest_claimed) (rw (f, ingest_claimed) (run i e f))
        ]
      ]

-- What a call can come to: nothing recorded and nothing changed, or the next id used for one row.
abbrev pub Books : Store → IngestResult → Tables → Type 0
Books s res t =
    ((res.transaction_id ≡ none) × (t ≡ at_rest s))
    ⊎ ((res.transaction_id ≡ some (pos (suc s.sequence)))
        × (t.current.sequence ≡ suc s.sequence)
        × (t.saved ≡ none))

module _ (c : CryptoService) (q : Sqlite) (laws : IsSqlite q) (t : Readings) (p : MeshPacket)
    (b : String) (n : ℤ) (seen : Seen) (s : Store) (d : q.Db) (e : laws.view d ≡ at_rest s)
    (room : HasRoom s) where
  open c use {hash_ciphertext}
  open laws use {view}

  -- The specification's outcome for an instruction.
  abbrev pub outcome : String → PaymentInstruction → Result Transaction × Store
  outcome h i =
      settle_spec (record { instruction = i; packet_hash = h; bridge_node_id = b; hop_count = n })
        (t.settled_at 1) s

  pub ingest-cases {ℓ} :
      (P : IngestResult → Tables → Type ℓ)
      → ((res : IngestResult) → res.transaction_id ≡ none → P res (at_rest s))
      → ((h : String) (i : PaymentInstruction)
          → hash_ciphertext p.ciphertext ≡ ok h
          → lookup h seen.seen ≡ none
          → read_instruction c q p.ciphertext ≡ ok i
          → freshness t.checked_at i.signed_at ≡ none
          → P (settled_result c q h (outcome h i).0) (at_rest (outcome h i).1))
      → P (ingest c q t p b n (seen, d)).0 (view (ingest c q t p b n (seen, d)).2)
  ingest-cases P kept settles = elim (Result-cases (hash_ciphertext p.ciphertext)) [
    | inr (x, f) ↦ rw (ingest-failed c q t p b n seen d x f) (rw e (kept _ refl))
    | inl (h, f) ↦ elim (Bool-cases (claim t.claimed_at h seen).0) [
      | inr late ↦ rw (ingest-later c q t p b n seen d h f late) (rw e (kept _ refl))
      | inl first ↦ rw (ingest-first c q t p b n seen d h f first) (
          ingest_claimed-cases c q (λ end. P end.0 (view end.1)) t p b n h d
            (λ reason. rw e (kept _ refl))
            λ i f' g.
              let r : Request = record {
                instruction = i;
                packet_hash = h;
                bridge_node_id = b;
                hop_count = n;
              } in
              let (same, after) = settle-refines q laws r t.settled_at s d e room in
              rw (same, after) (settles h i f (claim-first h t.claimed_at seen first) f' g))
    ]
  ]

  end-Books :
      (h : String) (end : Result Transaction × Store)
      → Ends s end
      → Books s (settled_result c q h end.0) (at_rest end.1)
  end-Books h (ok tx, s') f = inr (ap some f.0, f.1, refl)
  end-Books h (err x, s') f = inl (refl, ap at_rest f)

  -- Every call either reports no transaction and leaves the tables as they were, or reports the next
  -- id, which the tables then count as used; if no SQL transaction is open and an id is left.
  pub ingest-Books :
      Books s (ingest c q t p b n (seen, d)).0 (view (ingest c q t p b n (seen, d)).2)
  ingest-Books =
      ingest-cases (Books s) (λ res f. inl (f, refl))
        λ h i f g f' g'. end-Books h (outcome h i) (settle_spec-Ends _ (t.settled_at 1) s)

  -- A transaction is reported only for a packet whose hash nobody had claimed, which decrypts to an
  -- instruction that is fresh at the check.
  pub ingest-accepts :
      (x : ℤ)
      → (ingest c q t p b n (seen, d)).0.transaction_id ≡ some x
      → (h : String) × (i : PaymentInstruction) × (hash_ciphertext p.ciphertext ≡ ok h)
        × (lookup h seen.seen ≡ none)
        × (read_instruction c q p.ciphertext ≡ ok i)
        × (freshness t.checked_at i.signed_at ≡ none)
  ingest-accepts x =
      ingest-cases
        (λ res end.
          res.transaction_id ≡ some x
          → (h : String) × (i : PaymentInstruction) × (hash_ciphertext p.ciphertext ≡ ok h)
            × (lookup h seen.seen ≡ none)
            × (read_instruction c q p.ciphertext ≡ ok i)
            × (freshness t.checked_at i.signed_at ≡ none))
        (λ res f g. cc) (λ h i f g f' g' _. (h, i, f, g, f', g'))

  -- A hash that is in the log is never recorded again, whatever the table of claims has forgotten:
  -- no transaction is reported and the tables stay as they are.
  pub ingest-logged :
      (h : String)
      → hash_ciphertext p.ciphertext ≡ ok h
      → has_hash (c_str h) s.transactions ≡ true
      → ((ingest c q t p b n (seen, d)).0.transaction_id ≡ none)
        × (view (ingest c q t p b n (seen, d)).2 ≡ at_rest s)
  ingest-logged h f old =
      ingest-cases (λ res end. (res.transaction_id ≡ none) × (end ≡ at_rest s)) (λ res g. (g, refl))
        λ k i f' g f'' g'.
          let same : k ≡ h = ok-injective (sym f' ∙ f) in
          let (x, known) =
            settle_spec-known
              (record { instruction = i; packet_hash = k; bridge_node_id = b; hop_count = n })
              (t.settled_at 1) s (rw same old) in
          rw known (refl, refl)

  -- No packet makes or loses money, overdraws an account or doubles one, if the instruction in it,
  -- if there is one, is between two different accounts; on a sound ledger whose sum fits 64 bits.
  pub ingest-total :
      IsLedger s.accounts
      → Fits s.accounts
      → ((i : PaymentInstruction)
          → read_instruction c q p.ciphertext ≡ ok i
          → c_str i.sender_vpa ≢ c_str i.receiver_vpa)
      → let s' = (view (ingest c q t p b n (seen, d)).2).current in
        (total s'.accounts ≡ total s.accounts) × IsLedger s'.accounts
  ingest-total ledger fits different =
      ingest-cases
        (λ res end. (total end.current.accounts ≡ total s.accounts) × IsLedger end.current.accounts)
        (λ res g. (refl, ledger))
        λ h i f g f' g'. settle_spec-total _ (t.settled_at 1) s ledger fits (different i f')
