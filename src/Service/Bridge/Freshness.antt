-- ===== src/Service/Bridge/Freshness.antt =====
-- The check of a packet's age, on every pair of 64-bit times.
use upi_w_o_internet.Common.Map.{IsMap}
use upi_w_o_internet.Service.Idempotency.Laws.{
  Spares, run-held, step-IsMap, ttl_seconds-step, claim-holds, claim-lost,
}
use upi_w_o_internet.Service.Idempotency.{
  step, Seen, Event, claims, wakes, clears, new_seen, claim, run,
}
use upi_w_o_internet.Common.{
  [], ◌∷◌, true, All, All, true, List, ℕ, ◌+◌, ◌<◌, ◌≤◌, String, ◌≡◌, refl, ◌∙◌, ◌↔◌, inl, inr,
  Option, none, some, arith, if◌then◌else◌, Bool-cases,
}
use upi_w_o_internet.Common.Int.{
  ℤ, pos, negsuc, ◌-ℤ◌, ◌+ℤ◌, ◌≤ℤ◌, ◌<ℤ◌, ltb_ℤ, sub64, sub64-eq, IsInt64, quot_ℕ, half64, int_laws,
  wrap64, pos_part, neg_part, parts_of_eq, ltb_ℤ→<ℤ, ltb_ℤ→≤ℤ,
}
use upi_w_o_internet.Service.Bridge.{freshness, age_seconds, max_age_seconds}

-- A reading of the clock: after 1970, and far from the end of the range.
abbrev pub IsNow : ℤ → Type 0
IsNow now = (pos 0 ≤ℤ now) × (now <ℤ pos 4611686018427387904)

-- The tests on an age in milliseconds.
judge : ℤ → Option String
judge ms =
    if ltb_ℤ max_age_seconds (quot_ℕ ms 1000)
    then some "stale_packet"
    else if ltb_ℤ (quot_ℕ ms 1000) (negsuc 299)
    then some "future_dated"
    else none

freshness-judge : (now signed_at : ℤ) → freshness now signed_at ≡ judge (sub64 now signed_at)
unfolding freshness age_seconds judge
freshness-judge now signed_at = refl

judge-none : (ms : ℤ) → negsuc 300998 ≤ℤ ms → ms <ℤ pos 86401000 → judge ms ≡ none
unfolding judge
judge-none (pos n) lo hi = ground arith
judge-none (negsuc n) lo hi = ground arith

judge-stale : (ms : ℤ) → pos 86401000 ≤ℤ ms → judge ms ≡ some "stale_packet"
unfolding judge
judge-stale (pos n) h = ground arith
judge-stale (negsuc n) h = absurd (omega arith)

judge-future : (ms : ℤ) → ms <ℤ negsuc 300998 → judge ms ≡ some "future_dated"
unfolding judge
judge-future (pos n) h = absurd (omega arith)
judge-future (negsuc n) h = ground arith

-- Below the range the difference wraps to a time far in the future.
wrap64_far :
    (n : ℕ) → half64 ≤ n → n < half64 + 4611686018427387904 → wrap64 (pos n) <ℤ negsuc 300998
unfolding wrap64
wrap64_far n lo hi = ground arith

pos_of_parts : (a : ℤ) (n : ℕ) → neg_part a + n ≤ pos_part a → (m : ℕ) × (a ≡ pos m) × (n ≤ m)
pos_of_parts (pos m) n h = (m, refl, omega arith)
pos_of_parts (negsuc m) n h = absurd (omega arith)

module _ (now signed_at : ℤ) (clock : IsNow now) (range : IsInt64 signed_at) where
  abbrev ms : ℤ
  ms = now -ℤ signed_at

  freshness-near : ms <ℤ pos half64 → freshness now signed_at ≡ judge ms
  freshness-near near =
      rw (freshness-judge now signed_at, sub64-eq now signed_at (omega int_laws)) refl

  freshness-far : pos half64 ≤ℤ ms → freshness now signed_at ≡ some "future_dated"
  unfolding sub64
  freshness-far far =
      let (m, e, lo) = pos_of_parts ms half64 (omega int_laws) in
      rw (freshness-judge now signed_at) (
        judge-future (sub64 now signed_at)
          (rw e (wrap64_far m lo (omega (int_laws, parts_of_eq _ _ e)))))

  -- For every 64-bit time of signing a packet is fresh exactly if it was signed less than 86401
  -- seconds before the clock's reading and less than 301 seconds after it; the subtraction may wrap,
  -- but never to a fresh age, if the clock stands between 1970 and half the range.
  pub freshness-none_iff :
      (freshness now signed_at ≡ none) ↔ ((negsuc 300998 ≤ℤ ms) × (ms <ℤ pos 86401000))
  freshness-none_iff = (sound, complete)
    where
      complete : (negsuc 300998 ≤ℤ ms) × (ms <ℤ pos 86401000) → freshness now signed_at ≡ none
      complete h = freshness-near (omega arith) ∙ judge-none ms h.0 h.1

      sound : freshness now signed_at ≡ none → (negsuc 300998 ≤ℤ ms) × (ms <ℤ pos 86401000)
      sound h = elim (Bool-cases (ltb_ℤ ms (negsuc 300998))) [
        | inl future ↦
            let e = judge-future ms (ltb_ℤ→<ℤ ms (negsuc 300998) future) in
            cc (freshness-near (omega (arith, ltb_ℤ→<ℤ ms (negsuc 300998) future)))
        | inr late ↦ elim (Bool-cases (ltb_ℤ ms (pos 86401000))) [
          | inl fresh ↦ (ltb_ℤ→≤ℤ ms (negsuc 300998) late, ltb_ℤ→<ℤ ms (pos 86401000) fresh)
          | inr stale ↦ elim (Bool-cases (ltb_ℤ ms (pos half64))) [
            | inl near ↦
                let e = judge-stale ms (ltb_ℤ→≤ℤ ms (pos 86401000) stale) in
                cc (freshness-near (ltb_ℤ→<ℤ ms (pos half64) near))
            | inr far ↦ cc (freshness-far (ltb_ℤ→≤ℤ ms (pos half64) far))
          ]
        ]
      ]

  stale_after :
      (claimed_at : ℤ)
      → signed_at +ℤ pos 1000 ≤ℤ claimed_at
      → claimed_at +ℤ pos 86400000 <ℤ now
      → ms <ℤ pos half64
      → freshness now signed_at ≡ some "stale_packet"
  stale_after claimed_at signed late near = freshness-near near ∙ judge-stale ms (omega int_laws)

-- A claim, or a round of the evictor between 1970 and `now`.
abbrev pub IsBy : ℤ → Event → Type 0
IsBy now (claims t h) = Unit
IsBy now (wakes t) = (pos 0 ≤ℤ t) × (t ≤ℤ now)
IsBy now clears = ⊥

-- Up to the time to live after a claim no round of the evictor frees the hash.
IsBy→Spares :
    (t now : ℤ) (es : List Event)
    → IsNow now
    → now ≤ℤ t +ℤ pos 86400000
    → All (IsBy now) es
    → All (Spares t 86400) es
IsBy→Spares t now [] clock early by = tt
IsBy→Spares t now (claims u h ∷ es) clock early by = (tt, IsBy→Spares t now es clock early by.1)
IsBy→Spares t now (wakes u ∷ es) clock early by =
    ((omega int_laws, omega int_laws), IsBy→Spares t now es clock early by.1)
IsBy→Spares t now (clears ∷ es) clock early by = absurd by.0

-- A hash that was claimed and that can be claimed again, after any claims and rounds of the evictor
-- up to a reading of the clock, belongs to a stale packet: at that reading the age check refuses any
-- packet that was signed at least a second before the first claim; if nothing was cleared, the time
-- to live is the constructor's, the table holds no hash twice, the clock stands between 1970 and half
-- the range, and the age does not wrap.
pub freshness-claim :
    (h : String) (s : Seen) (claimed_at later now signed_at : ℤ) (es : List Event)
    → IsMap s.seen
    → s.ttl_seconds ≡ new_seen.ttl_seconds
    → (claim claimed_at h s).0 ≡ true
    → IsNow now
    → All (IsBy now) es
    → (claim later h (run es (claim claimed_at h s).1)).0 ≡ true
    → IsInt64 signed_at
    → signed_at +ℤ pos 1000 ≤ℤ claimed_at
    → now -ℤ signed_at <ℤ pos half64
    → freshness now signed_at ≡ some "stale_packet"
unfolding step
freshness-claim h s claimed_at later now signed_at es map ttl first clock by again range signed
      near =
    elim (Bool-cases (ltb_ℤ (claimed_at +ℤ pos 86400000) now)) [
      | inl late ↦
          stale_after now signed_at clock range claimed_at signed
            (ltb_ℤ→<ℤ (claimed_at +ℤ pos 86400000) now late) near
      | inr early ↦
          let s' = step (claims claimed_at h) s in
          let spares : All (Spares claimed_at s'.ttl_seconds) es =
            rw (ttl_seconds-step (claims claimed_at h) s, ttl)
              (IsBy→Spares claimed_at now es clock (ltb_ℤ→≤ℤ (claimed_at +ℤ pos 86400000) now early)
                by) in
          let held =
            run-held h es s' claimed_at (step-IsMap (claims claimed_at h) s map)
              (claim-holds h claimed_at s first) spares in
          absurd (claim-lost h later (run es s') claimed_at held again)
    ]
