-- ===== src/Service/Settlement/Threads/Turns.antt =====
-- How many turns a call of `settle` takes.
use upi_w_o_internet.Common.{
  ℕ, zero, suc, ◌+◌, ◌≤◌, ◌≡◌, refl, ap, subst, ◌∙◌, ◌==◌, false, Bool-cases, Option, some, inl,
  inr, List, [], ◌∷◌, get_elem?, arith, if◌then◌else◌,
}
use upi_w_o_internet.Common.Int.{ℤ, pos, leb_ℤ, ltb_ℤ}
use upi_w_o_internet.Common.Result.{Result, Action, ok, err}
use upi_w_o_internet.Model.Records.{Account, Transaction}
use upi_w_o_internet.Model.Sqlite.{Sqlite}
use upi_w_o_internet.Model.AccountRepository
use upi_w_o_internet.Service.Settlement.{
  Request, max_attempts, debit, credit, record_rejected, locked_section,
}
use upi_w_o_internet.Service.Settlement.Threads.{
  Thread, finished, section, checked, or_err, ◌>>=◌, after_section, paying, settle_rounds,
  settle_thread, Caller, advance, turn, interleave, callers,
}

-- The thread has at most `n` sections left, whatever the states are that they meet.
unfoldable pub Ends : {D : Type 0} → ℕ → Thread D → Type 0
Ends n (finished r) = Unit
Ends zero (section write next) = ⊥
Ends {D} (suc n) (section write next) = (d : D) → Ends n (next d)

-- How often the `n`-th caller has its turn.
unfoldable pub turns : ℕ → List ℕ → ℕ
turns n [] = 0
turns n (m ∷ ms) = let rest = turns n ms in if m == n then suc rest else rest

module _ {D : Type 0} where
  Ends-weaken : (m n : ℕ) (t : Thread D) → m ≤ n → Ends m t → Ends n t
  unfolding Ends
  Ends-weaken m n (finished r) le ends = tt
  Ends-weaken zero n (section write next) le ends = absurd ends
  Ends-weaken (suc m) zero (section write next) le ends = absurd (omega (arith, le))
  Ends-weaken (suc m) (suc n) (section write next) le ends =
      λ d. Ends-weaken m n (next d) (omega (arith, le)) (ends d)

  checked-Ends :
      {A : Type 0} (n : ℕ) (r : Result A) (k : A → Thread D)
      → ((a : A) → Ends n (k a))
      → Ends n (checked r k)
  unfolding Ends
  checked-Ends n (ok a) k ends = ends a
  checked-Ends n (err e) k ends = tt

  section-Ends :
      {A : Type 0} (n : ℕ) (act : Action D A) (k : A → Thread D)
      → ((a : A) → Ends n (k a))
      → Ends (suc n) (act >>= k)
  unfolding Ends
  section-Ends n act k ends d = checked-Ends n (act d).0 k ends

module _ (q : Sqlite) (r : Request) (now : ℕ → ℤ) where
  open q use {Db}

  after_section-Ends :
      (n attempt : ℕ) (continue : Thread Db) (end : Result Transaction)
      → Ends n continue
      → Ends n (after_section q r continue attempt end)
  unfolding Ends
  after_section-Ends n attempt continue (ok tx) ends = tt
  after_section-Ends n attempt continue (err e) ends = elim (Bool-cases (attempt == max_attempts)) [
    | inl last ↦ rw last tt
    | inr more ↦ rw more ends
  ]

  paying-Ends :
      (n attempt : ℕ) (at : ℤ) (continue : Thread Db) (a b : Account)
      → Ends n continue
      → Ends (suc n) (paying q r continue attempt at a b)
  unfolding Ends
  paying-Ends n attempt at continue a b ends =
      elim (Bool-cases (leb_ℤ r.instruction.amount (pos 0))) [
        | inl bad ↦ rw bad tt
        | inr good ↦ rw good (elim (Bool-cases (ltb_ℤ a.balance r.instruction.amount)) [
          | inl short ↦
              rw short (section-Ends n (record_rejected q r at) (λ tx. finished (ok tx)) (λ tx. tt))
          | inr covered ↦ rw covered (
              section-Ends n
                (locked_section q r (debit r.instruction.amount a) (credit r.instruction.amount b)
                  at)
                (after_section q r continue attempt)
                (λ end. after_section-Ends n attempt continue end ends))
        ])
      ]

  -- Three sections in each round.
  settle_rounds-Ends :
      (left attempt : ℕ) → Ends (left + left + left) (settle_rounds q r now left attempt)
  unfolding settle_rounds Ends
  settle_rounds-Ends zero attempt = tt
  settle_rounds-Ends (suc left) attempt =
      let rest = settle_rounds-Ends left (suc attempt) in
      Ends-weaken (suc (suc (suc (left + left + left)))) (suc left + suc left + suc left)
        (settle_rounds q r now (suc left) attempt) (omega arith)
        (section-Ends _ (AccountRepository.find_by_id q r.instruction.sender_vpa) _ λ o.
          checked-Ends _ (or_err o _) _ λ a.
            section-Ends _ (AccountRepository.find_by_id q r.instruction.receiver_vpa) _ λ o'.
              checked-Ends _ (or_err o' _) _ λ b. paying-Ends _ attempt (now attempt) _ a b rest)

  settle_thread-Ends : Ends 9 (settle_thread q r now)
  unfolding settle_thread
  settle_thread-Ends = settle_rounds-Ends max_attempts 1

module _ {D : Type 0} where
  -- The caller whose turn it is has one section less, and no other has moved.
  turn-same :
      (n : ℕ) (c : Caller D) (cs : List (Caller D)) (d : D)
      → get_elem? cs n ≡ some c
      → get_elem? (turn n cs d).0 n
        ≡ some (record { request = c.request; thread = (advance c.thread d).0 })
  unfolding turn
  turn-same n c [] d e = cc
  turn-same zero c (b ∷ cs) d e =
      let same : b ≡ c = cc in
      ap (λ b. some (record { request = b.request; thread = (advance b.thread d).0 })) same
  turn-same (suc n) c (b ∷ cs) d e = turn-same n c cs d e

  turn-other :
      (m n : ℕ) (cs : List (Caller D)) (d : D)
      → (m == n) ≡ false
      → get_elem? (turn m cs d).0 n ≡ get_elem? cs n
  unfolding turn
  turn-other m n [] d e = refl
  turn-other zero zero (b ∷ cs) d e = absurd (ground arith)
  turn-other zero (suc n) (b ∷ cs) d e = refl
  turn-other (suc m) zero (b ∷ cs) d e = refl
  turn-other (suc m) (suc n) (b ∷ cs) d e = turn-other m n cs d (ground arith)

  -- The call has returned or thrown.
  abbrev pub Finishes : Request → Option (Caller D) → Type 0
  Finishes r found =
      (end : Result Transaction) × (found ≡ some (record { request = r; thread = finished end }))

  advance-Ends : (n : ℕ) (t : Thread D) (d : D) → Ends (suc n) t → Ends n (advance t d).0
  unfolding Ends
  advance-Ends n (finished r) d ends = tt
  advance-Ends n (section write next) d ends = ends d

  Ends-Finishes :
      (r : Request) (t : Thread D) (found : Option (Caller D))
      → found ≡ some (record { request = r; thread = t })
      → Ends 0 t
      → Finishes r found
  unfolding Ends
  Ends-Finishes r (finished end) found e ends = (end, e)
  Ends-Finishes r (section write next) found e ends = absurd ends

  interleave-Ends :
      (n : ℕ) (ns : List ℕ) (cs : List (Caller D)) (d : D) (c : Caller D)
      → get_elem? cs n ≡ some c
      → Ends (turns n ns) c.thread
      → Finishes c.request (get_elem? (interleave ns (cs, d)).0 n)
  unfolding interleave turns
  interleave-Ends n [] cs d c e ends = Ends-Finishes c.request c.thread (get_elem? cs n) e ends
  interleave-Ends n (m ∷ ns) cs d c e ends =
      let (cs', d') = turn m cs d in
      elim (Bool-cases (m == n)) [
        | inl same ↦
            let equal : n ≡ m = ground arith in
            let c' : Caller D = record { request = c.request; thread = (advance c.thread d).0 } in
            let moved : get_elem? cs' n ≡ some c' =
              subst (λ k. get_elem? (turn k cs d).0 n ≡ some c') equal (turn-same n c cs d e) in
            interleave-Ends n ns cs' d' c' moved
              (advance-Ends (turns n ns) c.thread d (rw same at ends))
        | inr other ↦
            interleave-Ends n ns cs' d' c (turn-other m n cs d other ∙ e) (rw other at ends)
      ]

callers-get_elem? :
    (q : Sqlite) (n : ℕ) (r : Request) (now : ℕ → ℤ) (rs : List (Request × (ℕ → ℤ)))
    → get_elem? rs n ≡ some (r, now)
    → get_elem? (callers q rs) n ≡ some (record { request = r; thread = settle_thread q r now })
callers-get_elem? q n r now [] e = cc
callers-get_elem? q zero r now (c ∷ rs) e =
    let same : c ≡ (r, now) = cc in
    ap (λ c. some (record { request = c.0; thread = settle_thread q c.0 c.1 })) same
callers-get_elem? q (suc n) r now (c ∷ rs) e = callers-get_elem? q n r now rs e

-- A call of `settle` has returned or thrown once its thread has had nine turns, whatever the other
-- threads do between them, how many there are, and what the state is.
pub interleave-Finishes :
    (q : Sqlite) (rs : List (Request × (ℕ → ℤ))) (ns : List ℕ) (d : q.Db) (n : ℕ) (r : Request)
    (now : ℕ → ℤ)
    → get_elem? rs n ≡ some (r, now)
    → 9 ≤ turns n ns
    → Finishes r (get_elem? (interleave ns (callers q rs, d)).0 n)
interleave-Finishes q rs ns d n r now e enough =
    interleave-Ends n ns (callers q rs) d (record { request = r; thread = settle_thread q r now })
      (callers-get_elem? q n r now rs e)
      (Ends-weaken 9 (turns n ns) (settle_thread q r now) enough (settle_thread-Ends q r now))
