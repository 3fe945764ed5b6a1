-- ===== src/Service/Idempotency.antt =====
-- service/IdempotencyService.cpp: the hashes that were claimed, with the time of the claim.
-- The mutex makes each operation one step; the clock reading is an argument.
-- The evictor's loop is one call of `evict_expired` each minute.
pub mod Laws
use upi_w_o_internet.Common.{
  ℕ, ◌*◌, String, Bool, true, false, none, some, List, [], ◌∷◌, length, if◌then◌else◌,
}
use upi_w_o_internet.Common.Int.{ℤ, pos, ltb_ℤ, sub64}
use upi_w_o_internet.Common.Map.{Map, lookup, insert, is_some}

pub record Seen : Type 0 where
  pub seen : Map ℤ
  pub ttl_seconds : ℕ

-- The constructor.
abbrev pub new_seen : Seen
new_seen = record { seen = []; ttl_seconds = 86400 }

-- `unordered_map::insert` writes only where the key is new, and says whether it did.
unfoldable pub claim : ℤ → String → Seen → Bool × Seen
claim now packet_hash s = elim (lookup packet_hash s.seen) [
  | none ↦ (true, record s { seen = insert packet_hash now s.seen })
  | some claimed_at ↦ (false, s)
]

unfoldable pub size : Seen → ℕ
size s = length s.seen

unfoldable pub clear : Seen → Seen
clear s = record s { seen = [] }

-- The loop over the map: entries below the cutoff are erased.
unfoldable pub erase_before : ℤ → Map ℤ → Map ℤ
erase_before cutoff [] = []
erase_before cutoff ((h, claimed_at) ∷ m) =
    let rest = erase_before cutoff m in
    if ltb_ℤ claimed_at cutoff then rest else (h, claimed_at) ∷ rest

-- One round of the evictor, at the time `now`.
unfoldable pub evict_expired : ℤ → Seen → Seen
unfolding erase_before
evict_expired now s = record s {
  seen = erase_before (sub64 now (pos (s.ttl_seconds * 1000))) s.seen;
}

-- What the threads do to the table, in the order in which the mutex lets them through.
pub data Event : Type 0 where
  claims : ℤ → String → Event
  wakes : ℤ → Event
  clears : Event

unfoldable pub step : Event → Seen → Seen
unfolding claim clear evict_expired
step (claims now h) s = (claim now h s).1
step (wakes now) s = evict_expired now s
step clears s = clear s

unfoldable pub run : List Event → Seen → Seen
run [] s = s
run (e ∷ es) s = run es (step e s)
