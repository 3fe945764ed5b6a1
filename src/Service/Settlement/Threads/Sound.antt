-- ===== src/Service/Settlement/Threads/Sound.antt =====
-- The state between two sections: balances that leave room for what is still to be paid in, and a log
-- in order with ids left.
use upi_w_o_internet.Common.{
  ℕ, zero, suc, ◌+◌, ◌≤◌, ◌<◌, String, ◌≡◌, refl, subst, false, some, inl, inr, Bool-cases, List,
  [], ◌∷◌, arith, if◌then◌else◌,
}
use upi_w_o_internet.Common.Int.{ℤ, pos, half64, ◌≤ℤ◌, ◌<ℤ◌, ◌+ℤ◌, int_laws, sub64-eq, add64-eq}
use upi_w_o_internet.Common.Result.{Result, ok, err}
use upi_w_o_internet.Common.Text.{c_str, str_eq, str_eq→≡}
use upi_w_o_internet.Model.Records.{Account, Transaction, Status}
use upi_w_o_internet.Model.Tables.{Store, Tables, find_account, upsert, has_hash}
use upi_w_o_internet.Model.Views.{stored_row, stored_account}
use upi_w_o_internet.Model.Ledger.{IsLedger}
use upi_w_o_internet.Service.Settlement.{Request, new_transaction, debit, credit}
use upi_w_o_internet.Service.Settlement.Spec.{post, post_keeps}
use upi_w_o_internet.Service.Settlement.Locking.{at_rest}
use upi_w_o_internet.Service.Settlement.Once.{
  HasLog, has_hash-append, post-HasLog, sequence-post-le,
}

-- Whether the log has a hash, as a number.
abbrev pub logged : String → Store → ℕ
logged h s = if has_hash h s.transactions then 1 else 0

-- One for a result, none for an exception.
abbrev pub won : Result Transaction → ℕ
won (ok tx) = 1
won (err e) = 0

pub logged-post :
    (h : String) (r : Request) (at : ℤ) (status : Status) (accounts : List Account) (s : Store)
    → (if str_eq (c_str r.packet_hash) h then won (post r at status accounts s).0 else 0)
        + logged h s
      ≤ logged h (post r at status accounts s).1
unfolding post
logged-post h r at status accounts s =
    let row = record (stored_row (new_transaction r at status)) { id = suc s.sequence } in
    let after = has_hash-append h s.transactions row in
    elim (Bool-cases (has_hash (c_str r.packet_hash) s.transactions)) [
      | inl old ↦ rw old (ground arith)
      | inr new ↦
          rw (new, after)
            (elim (Bool-cases (str_eq (c_str r.packet_hash) h)) [
              | inl same ↦
                  let absent : has_hash h s.transactions ≡ false =
                    subst (λ k. has_hash k s.transactions ≡ false)
                      (str_eq→≡ (c_str r.packet_hash) h same) new in
                  rw (same, absent) (omega arith)
              | inr other ↦ rw other (ground arith)
            ])
    ]

module _ (amount : ℕ) where
  -- What `n` payments of `amount` come to.
  abbrev pub spend : ℕ → ℕ
  spend zero = 0
  spend (suc n) = amount + spend n

  -- A balance that `n` payments keep in the range.
  abbrev pub Spares : ℕ → Account → Type 0
  Spares n a = (pos 0 ≤ℤ a.balance) × (a.balance +ℤ pos (spend n) <ℤ pos half64)

  abbrev pub AllSpare : ℕ → List Account → Type 0
  AllSpare n [] = Unit
  AllSpare n (a ∷ as') = Spares n a × AllSpare n as'

  pub spend-le : (m n : ℕ) → m ≤ n → spend m ≤ spend n
  spend-le zero n le = omega arith
  spend-le (suc m) zero le = absurd (omega (arith, le))
  spend-le (suc m) (suc n) le = omega (arith, spend-le m n (omega (arith, le)))

  pub Spares-weaken : (m n : ℕ) (a : Account) → m ≤ n → Spares n a → Spares m a
  Spares-weaken m n a le h = (h.0, omega (int_laws, spend-le m n le, h.1))

  pub AllSpare-weaken : (m n : ℕ) (as' : List Account) → m ≤ n → AllSpare n as' → AllSpare m as'
  AllSpare-weaken m n [] le h = tt
  AllSpare-weaken m n (a ∷ as') le h = (Spares-weaken m n a le h.0, AllSpare-weaken m n as' le h.1)

  pub find_account-Spares :
      (k : String) (n : ℕ) (a : Account) (as' : List Account)
      → AllSpare n as'
      → find_account k as' ≡ some a
      → Spares n a
  find_account-Spares k n a [] h e = cc
  find_account-Spares k n a (b ∷ as') h e = elim (Bool-cases (str_eq b.vpa k)) [
    | inl same ↦ let equal : b ≡ a = cc (rw same at e) in subst (Spares n) equal h.0
    | inr other ↦ find_account-Spares k n a as' h.1 (rw other at e)
  ]

  pub upsert-AllSpare :
      (n : ℕ) (b : Account) (as' : List Account)
      → AllSpare n as'
      → Spares n b
      → AllSpare n (upsert b as')
  upsert-AllSpare n b [] h p = (p, tt)
  upsert-AllSpare n b (a ∷ as') h p = ground (arith, upsert-AllSpare n b as' h.1 p)

  -- No transaction is open, the ledger is sound and leaves room for `n` payments, the log is in order
  -- and leaves `n` ids.
  pub record IsSound (n : ℕ) (t : Tables) : Type 0 where
    pub rests : t ≡ at_rest t.current
    pub ledger : IsLedger t.current.accounts
    pub spare : AllSpare n t.current.accounts
    pub log : HasLog t.current
    pub ids : t.current.sequence + n < half64

  pub IsSound-weaken : (n : ℕ) (t : Tables) → IsSound (suc n) t → IsSound n t
  IsSound-weaken n t i = record {
    rests = i.rests;
    ledger = i.ledger;
    spare = AllSpare-weaken n (suc n) t.current.accounts (omega arith) i.spare;
    log = i.log;
    ids = omega (arith, i.ids);
  }

  -- A row is posted together with balances that are sound.
  pub post-IsSound :
      (m : ℕ) (r : Request) (at : ℤ) (status : Status) (accounts : List Account) (s : Store)
      → IsSound (suc m) (at_rest s)
      → IsLedger accounts
      → AllSpare m accounts
      → IsSound m (at_rest (post r at status accounts s).1)
  post-IsSound m r at status accounts s i ledger spare = record {
    rests = refl;
    ledger =
        post_keeps (λ s'. IsLedger s'.accounts) r at status accounts s i.ledger (λ new. ledger);
    spare =
        post_keeps (λ s'. AllSpare m s'.accounts) r at status accounts s
          (AllSpare-weaken m (suc m) s.accounts (omega arith) i.spare) (λ new. spare);
    log = post-HasLog r at status accounts s i.log;
    ids = omega (arith, i.ids, sequence-post-le r at status accounts s);
  }

  module _ (m : ℕ) (x : ℤ) (positive : pos 0 <ℤ x) (bounded : x ≤ℤ pos amount) where
    -- What a payment makes of the accounts that it has read.
    pub debit-Spares :
        (a : Account) → Spares m a → x ≤ℤ a.balance → Spares m (stored_account (debit x a))
    debit-Spares a h covered =
        let e = sub64-eq a.balance x (omega (int_laws, h.1)) in
        rw e (omega int_laws, omega (int_laws, h.1))

    pub credit-Spares : (b : Account) → Spares (suc m) b → Spares m (stored_account (credit x b))
    credit-Spares b h =
        let e = add64-eq b.balance x (omega (int_laws, h.0, h.1)) in
        rw e (omega (int_laws, h.0), omega (int_laws, h.1))
