-- ===== src/Service/Settlement/Threads/Keeping.antt =====
-- What holds after any turns of any threads: an invariant that every section keeps, and a count of
-- the calls with one packet hash that have returned. The invariant may depend on how many turns are
-- left.
use upi_w_o_internet.Common.{
  ℕ, zero, suc, ◌+◌, ◌≤◌, ◌<◌, String, Bool, List, [], ◌∷◌, All, length, arith, if◌then◌else◌,
}
use upi_w_o_internet.Common.Result.{ok, err}
use upi_w_o_internet.Common.Text.{c_str, str_eq}
use upi_w_o_internet.Service.Settlement.Threads.{
  Thread, finished, section, Caller, Calls, advance, turn, interleave,
}

-- One if the call has returned a transaction.
unfoldable pub returned : {D : Type 0} → Thread D → ℕ
returned (finished (ok tx)) = 1
returned (finished (err e)) = 0
returned (section write next) = 0

-- A call for a packet hash.
abbrev pub is_for : {D : Type 0} → String → Caller D → Bool
is_for h c = str_eq (c_str c.request.packet_hash) h

-- One if the call is for the hash and has returned a transaction.
abbrev pub returned_for : {D : Type 0} → String → Caller D → ℕ
returned_for h c = if is_for h c then returned c.thread else 0

-- How many calls for a packet hash have returned a transaction.
abbrev pub returns : {D : Type 0} → String → List (Caller D) → ℕ
returns h [] = 0
returns h (c ∷ cs) = returned_for h c + returns h cs

module _ {D : Type 0} (Inv : ℕ → D → Type 0) (held : D → ℕ) where
  -- Every section keeps the invariant, and a call that counts, when it returns, makes `held` grow.
  unfoldable pub Safe : Bool → ℕ → Thread D → Type 0
  Safe counts n (finished r) = Unit
  Safe counts n (section write next) =
      (m : ℕ)
      → m < n
      → (d : D) → Inv (suc m) d
      → Inv m (write d)
        × ((if counts then returned (next d) else 0) + held d ≤ held (write d))
        × Safe counts m (next d)

  Safe-weaken : (counts : Bool) (n m : ℕ) (t : Thread D) → m ≤ n → Safe counts n t → Safe counts m t
  unfolding Safe
  Safe-weaken counts n m (finished r) le safe = tt
  Safe-weaken counts n m (section write next) le safe = λ k lt. safe k (omega (arith, lt, le))

  abbrev pub IsSafe : String → ℕ → Caller D → Type 0
  IsSafe h n c = Safe (is_for h c) n c.thread

  module _ (weaken : (n : ℕ) (d : D) → Inv (suc n) d → Inv n d) where
    advance-Safe :
        (counts : Bool) (m : ℕ) (t : Thread D) (d : D)
        → Safe counts (suc m) t
        → Inv (suc m) d
        → let (t', d') = advance t d in
          Safe counts m t'
          × Inv m d'
          × ((if counts then returned t' else 0) + held d
              ≤ (if counts then returned t else 0) + held d')
    unfolding Safe returned
    advance-Safe counts m (finished r) d safe inv = (tt, weaken m d inv, omega arith)
    advance-Safe counts m (section write next) d safe inv =
        let (inv', grows, safe') = safe m (omega arith) d inv in
        (safe', inv', ground (arith, grows))

    module _ (h : String) where
      -- After a turn, with `m` turns left.
      abbrev Kept : ℕ → Calls D → Calls D → Type 0
      Kept m (cs, d) (cs', d') =
          All (IsSafe h m) cs' × Inv m d' × (returns h cs' + held d ≤ returns h cs + held d')

      All-weaken : (m : ℕ) (cs : List (Caller D)) → All (IsSafe h (suc m)) cs → All (IsSafe h m) cs
      All-weaken m [] safe = tt
      All-weaken m (c ∷ cs) (s, safe) =
          (Safe-weaken (is_for h c) (suc m) m c.thread (omega arith) s, All-weaken m cs safe)

      turn-Kept :
          (m n : ℕ) (cs : List (Caller D)) (d : D)
          → All (IsSafe h (suc m)) cs
          → Inv (suc m) d
          → Kept m (cs, d) (turn n cs d)
      unfolding turn
      turn-Kept m n [] d safe inv = (tt, weaken m d inv, omega arith)
      turn-Kept m zero (c ∷ cs) d (s, safe) inv =
          let (s', inv', grows) = advance-Safe (is_for h c) m c.thread d s inv in
          ((s', All-weaken m cs safe), inv', omega (arith, grows))
      turn-Kept m (suc n) (c ∷ cs) d (s, safe) inv =
          let (safe', inv', grows) = turn-Kept m n cs d safe inv in
          (
            (Safe-weaken (is_for h c) (suc m) m c.thread (omega arith) s, safe'),
            inv',
            omega (arith, grows),
          )

      pub interleave-keeps :
          (ns : List ℕ) (cs : List (Caller D)) (d : D)
          → All (IsSafe h (length ns)) cs
          → Inv (length ns) d
          → let (cs', d') = interleave ns (cs, d) in
            Inv 0 d' × (returns h cs' + held d ≤ returns h cs + held d')
      unfolding interleave
      interleave-keeps [] cs d safe inv = (inv, omega arith)
      interleave-keeps (n ∷ ns) cs d safe inv =
          let (safe', inv', grows) = turn-Kept (length ns) n cs d safe inv in
          let (inv'', grows') = interleave-keeps ns (turn n cs d).0 (turn n cs d).1 safe' inv' in
          (inv'', omega (arith, grows, grows'))
