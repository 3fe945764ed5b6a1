-- ===== src/Service/Idempotency/Laws.antt =====
-- The table of claimed hashes gives each hash to one caller, until it is evicted or cleared.
use upi_w_o_internet.Common.{
  ◌≢◌, ℕ, suc, ◌*◌, String, ◌≡◌, refl, Bool, true, false, none, some, List, [], ◌∷◌, arith, All,
  ◌&&◌, if◌then◌else◌, ◌||◌,
}
use text.Mathlib.TextEquality.{eq_iff}
use upi_w_o_internet.Common.Int.{ℤ, pos, ◌-ℤ◌, ◌≤ℤ◌, ltb_ℤ, sub64-eq, IsInt64, ≤ℤ→ltb_ℤ}
use upi_w_o_internet.Common.Map.{
  Map, IsMap, lookup, insert-IsMap, lookup-insert, lookup-insert_self,
}
use upi_w_o_internet.Common.Text.{str_eq}
use upi_w_o_internet.Service.Idempotency.{
  Seen, Event, claims, wakes, clears, claim, clear, erase_before, evict_expired, step, run,
}

-- The winners among the claims of `h` in a schedule.
unfoldable pub wins : String → List Event → Seen → ℕ
wins h [] s = 0
wins h (claims now k ∷ es) s =
    let rest = wins h es (step (claims now k) s) in
    if str_eq k h && (claim now k s).0 then suc rest else rest
wins h (e ∷ es) s = wins h es (step e s)

abbrev pub IsClaim : Event → Type 0
IsClaim (claims now h) = Unit
IsClaim (wakes now) = ⊥
IsClaim clears = ⊥

abbrev pub tries : String → List Event → Bool
tries h [] = false
tries h (claims now k ∷ es) = str_eq k h || tries h es
tries h (e ∷ es) = tries h es

-- Once a hash is in the table no claim of it wins, whatever else is claimed.
wins-held :
    (h : String) (es : List Event) (s : Seen) {t : ℤ}
    → All IsClaim es
    → lookup h s.seen ≡ some t
    → wins h es s ≡ 0
unfolding wins step claim
wins-held h [] s only held = refl
wins-held h (claims now k ∷ es) s {t} only held = ground (
  arith,
  eq_iff k h,
  lookup-insert k h now s.seen,
  wins-held h es (step (claims now k) s) {t = t} only.1,
)
wins-held h (wakes now ∷ es) s only held = absurd only.0
wins-held h (clears ∷ es) s only held = absurd only.0

-- Of any number of claims of a hash that is not in the table, in any order and among claims of
-- other hashes, exactly one wins; if nothing is evicted or cleared meanwhile.
pub wins-one :
    (h : String) (es : List Event) (s : Seen)
    → All IsClaim es
    → lookup h s.seen ≡ none
    → wins h es s ≡ (if tries h es then 1 else 0)
unfolding wins step claim
wins-one h [] s only free = refl
wins-one h (claims now k ∷ es) s only free = ground (
  arith,
  eq_iff k h,
  lookup-insert k h now s.seen,
  wins-held h es (step (claims now k) s) {t = now} only.1,
  wins-one h es (step (claims now k) s) only.1,
)
wins-one h (wakes now ∷ es) s only free = absurd only.0
wins-one h (clears ∷ es) s only free = absurd only.0

-- The loop of the evictor erases the entries below the cutoff and keeps all others.
pub lookup-erase_before :
    (h : String) (cutoff : ℤ) (m : Map ℤ)
    → IsMap m
    → lookup h (erase_before cutoff m)
      ≡ (elim (lookup h m) [ none ↦ none | some t ↦ if ltb_ℤ t cutoff then none else some t ])
unfolding lookup erase_before
lookup-erase_before h cutoff [] d = refl
lookup-erase_before h cutoff ((k, t) ∷ m) d =
    ground (arith, eq_iff k h, lookup-erase_before h cutoff m d.1)

erase_before-IsMap : (cutoff : ℤ) (m : Map ℤ) → IsMap m → IsMap (erase_before cutoff m)
unfolding erase_before
erase_before-IsMap cutoff [] d = tt
erase_before-IsMap cutoff ((k, t) ∷ m) d =
    ground (arith, lookup-erase_before k cutoff m d.1, erase_before-IsMap cutoff m d.1)

-- The table never holds a hash twice.
pub step-IsMap : (e : Event) (s : Seen) → IsMap s.seen → IsMap (step e s).seen
unfolding step claim clear evict_expired
step-IsMap (claims now h) s d = ground (arith, insert-IsMap h now s.seen d)
step-IsMap (wakes now) s d = erase_before-IsMap _ s.seen d
step-IsMap clears s d = tt

-- An event that leaves the hash claimed at `t`: no clearing, and no wake more than the time to live
-- later or with a cutoff that does not fit 64 bits.
abbrev pub Spares : ℤ → ℕ → Event → Type 0
Spares t ttl (claims now h) = Unit
Spares t ttl (wakes now) = IsInt64 (now -ℤ pos (ttl * 1000)) × (now -ℤ pos (ttl * 1000) ≤ℤ t)
Spares t ttl clears = ⊥

step-held :
    (h : String) (e : Event) (s : Seen) (t : ℤ)
    → IsMap s.seen
    → lookup h s.seen ≡ some t
    → Spares t s.ttl_seconds e
    → lookup h (step e s).seen ≡ some t
unfolding step claim evict_expired
step-held h (claims now k) s t d held spares =
    ground (arith, eq_iff k h, lookup-insert k h now s.seen)
step-held h (wakes now) s t d held spares =
    rw (sub64-eq now (pos (s.ttl_seconds * 1000)) spares.0) (
      rw (lookup-erase_before h (now -ℤ pos (s.ttl_seconds * 1000)) s.seen d)
        (rw held (rw (≤ℤ→ltb_ℤ t (now -ℤ pos (s.ttl_seconds * 1000)) spares.1) refl)))
step-held h clears s t d held spares = absurd spares

pub ttl_seconds-step : (e : Event) (s : Seen) → (step e s).ttl_seconds ≡ s.ttl_seconds
unfolding step claim clear evict_expired
ttl_seconds-step (claims now h) s = ground arith
ttl_seconds-step (wakes now) s = refl
ttl_seconds-step clears s = refl

-- A claimed hash stays claimed, with the time of its first claim, through every schedule of claims
-- and evictions that has no clearing, no eviction more than the time to live after that claim, and no
-- eviction whose cutoff does not fit 64 bits; in a table that holds no hash twice.
pub run-held :
    (h : String) (es : List Event) (s : Seen) (t : ℤ)
    → IsMap s.seen
    → lookup h s.seen ≡ some t
    → All (Spares t s.ttl_seconds) es
    → lookup h (run es s).seen ≡ some t
unfolding run
run-held h [] s t d held spares = held
run-held h (e ∷ es) s t d held spares =
    run-held h es (step e s) t (step-IsMap e s d) (step-held h e s t d held spares.0)
      (rw (ttl_seconds-step e s) spares.1)

-- A hash whose claim is older than the time to live is free again after an eviction.
pub claim-evict_expired :
    (h : String) (now later : ℤ) (s : Seen) (t : ℤ)
    → IsMap s.seen
    → lookup h s.seen ≡ some t
    → IsInt64 (now -ℤ pos (s.ttl_seconds * 1000))
    → (claim later h (evict_expired now s)).0 ≡ ltb_ℤ t (now -ℤ pos (s.ttl_seconds * 1000))
unfolding claim evict_expired
claim-evict_expired h now later s t d held range =
    rw (sub64-eq now (pos (s.ttl_seconds * 1000)) range)
      (ground (arith, lookup-erase_before h (now -ℤ pos (s.ttl_seconds * 1000)) s.seen d))

-- A claim leaves the hash in the table, so the next one fails and changes nothing.
pub claim-claim :
    (h : String) (now later : ℤ) (s : Seen)
    → claim later h (claim now h s).1 ≡ (false, (claim now h s).1)
unfolding claim
claim-claim h now later s = ground (arith, lookup-insert_self h now s.seen)

-- A claim wins exactly if the hash is not there.
pub claim-first :
    (h : String) (now : ℤ) (s : Seen) → (claim now h s).0 ≡ true → lookup h s.seen ≡ none
unfolding claim
claim-first h now s e = ground arith

-- After a claim that won the table has the hash, with the time of the claim.
pub claim-holds :
    (h : String) (now : ℤ) (s : Seen)
    → (claim now h s).0 ≡ true
    → lookup h (claim now h s).1.seen ≡ some now
unfolding claim
claim-holds h now s e = ground (arith, lookup-insert_self h now s.seen)

-- A claim of a held hash does not win.
pub claim-lost :
    (h : String) (now : ℤ) (s : Seen) (t : ℤ) → lookup h s.seen ≡ some t → (claim now h s).0 ≢ true
unfolding claim
claim-lost h now s t held won = ground arith
