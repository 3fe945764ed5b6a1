-- ===== src/Service/Mesh/Gossip.antt =====
-- MeshSimulatorService::gossipOnce: what a round of gossip does to the packets that devices hold.
use upi_w_o_internet.Common.{
  ap, ◌-◌, ◌≤◌, ℕ, suc, ◌+◌, String, ◌≡◌, refl, ◌⊎◌, false, some, List, [], ◌∷◌, foldl, arith,
  Option-cases, Bool-cases, inl, inr,
}
use upi_w_o_internet.Common.Int.{wrap32, pos, leb_ℤ}
use upi_w_o_internet.Common.Map.{Map, keys, lookup, insert, length-insert}
use upi_w_o_internet.Common.Text.{str_eq}
use upi_w_o_internet.Model.Records.{MeshPacket}
use upi_w_o_internet.Service.Mesh.{
  Mesh, VirtualDevice, packet_count, hold, holds, decrement, offer, spread, send_all, gossip_round,
  gossip_once, update_device, or_empty, snapshot_from, senders,
}

-- A relation that each step of a loop keeps holds between the ends of the loop.
module _ {S : Type 0} (R : S → S → Type 0) (R_refl : (s : S) → R s s)
    (R_trans : (s t u : S) → R s t → R t u → R s u) where
  pub foldl-rel :
      {A : Type 0} (f : S → A → S)
      → ((s : S) (a : A) → R s (f s a))
      → (s : S) (as' : List A) → R s (foldl f s as')
  foldl-rel f step s [] = R_refl s
  foldl-rel f step s (a ∷ as') =
      R_trans s (f s a) (foldl f (f s a) as') (step s a) (foldl-rel f step (f s a) as')

-- What every offer keeps a round of gossip keeps.
module _ (R : Mesh × ℕ → Mesh × ℕ → Type 0) (R_refl : (s : Mesh × ℕ) → R s s)
    (R_trans : (s t u : Mesh × ℕ) → R s t → R t u → R s u)
    (offer_step : (src : String) (p : MeshPacket) (s : Mesh × ℕ) (dst : String)
      → R s (offer src p s dst)) where
  pub spread-rel :
      (devices : List String) (src : String) (s : Mesh × ℕ) (p : MeshPacket)
      → R s (spread devices src s p)
  unfolding spread
  spread-rel devices src s p = elim (Bool-cases (leb_ℤ p.ttl (pos 0))) [
    | inl spent ↦ rw spent (R_refl s)
    | inr live ↦ rw live (foldl-rel R R_refl R_trans (offer src p) (offer_step src p) s devices)
  ]

  pub send_all-rel :
      (devices : List String) (held : Map (List MeshPacket)) (s : Mesh × ℕ)
      (sender : String × String)
      → R s (send_all devices held s sender)
  unfolding send_all
  send_all-rel devices held s sender =
      foldl-rel R R_refl R_trans (spread devices sender.0) (spread-rel devices sender.0) s
        (or_empty (lookup sender.1 held))

  pub gossip_round-rel : (m : Mesh) → R (m, 0) (gossip_round m)
  unfolding gossip_round
  gossip_round-rel m =
      foldl-rel R R_refl R_trans (send_all (keys m) (snapshot_from [] m))
        (send_all-rel (keys m) (snapshot_from [] m)) (m, 0) (senders m)

-- The packets on all devices.
unfoldable pub total_packets : Mesh → ℕ
total_packets [] = 0
total_packets ((k, d) ∷ m) = packet_count d + total_packets m

total_packets-insert :
    (k : String) (d d' : VirtualDevice) (m : Mesh)
    → lookup k m ≡ some d
    → packet_count d' ≡ suc (packet_count d)
    → total_packets (insert k d' m) ≡ suc (total_packets m)
unfolding total_packets lookup insert
total_packets-insert k d d' [] found more = cc
total_packets-insert k d d' ((j, e) ∷ m) found more = ground (arith, total_packets-insert k d d' m)

packet_count-hold :
    (p : MeshPacket) (d : VirtualDevice)
    → holds p.packet_id d ≡ false
    → packet_count (hold p d) ≡ suc (packet_count d)
unfolding packet_count hold holds
packet_count-hold p d absent = rw (length-insert p.packet_id p d.held_packets, absent) refl

unfoldable Counted : Mesh × ℕ → Mesh × ℕ → Type 0
Counted (m, n) (m', n') = total_packets m' + n ≡ total_packets m + n'

-- An offer is passed over, or gives a device that lacks the packet a copy with one hop less.
unfoldable pub Copied : MeshPacket → Mesh × ℕ → Mesh × ℕ → String → Type 0
Copied p (m, n) s' dst =
    (d : VirtualDevice) × (lookup dst m ≡ some d)
    × (holds p.packet_id d ≡ false)
    × (s' ≡ (update_device dst (hold (decrement p) d) m, suc n))

pub offer-cases :
    (src : String) (p : MeshPacket) (s : Mesh × ℕ) (dst : String)
    → (offer src p s dst ≡ s) ⊎ Copied p s (offer src p s dst) dst
unfolding offer Copied
offer-cases src p (m, n) dst = elim (Bool-cases (str_eq dst src)) [
  | inl same ↦ inl (rw same refl)
  | inr differ ↦ elim (Option-cases (lookup dst m)) [
    | inl missing ↦ inl (rw (differ, missing) refl)
    | inr (d, found) ↦ elim (Bool-cases (holds p.packet_id d)) [
      | inl held ↦ inl (rw (differ, found, held) refl)
      | inr absent ↦ inr (d, found, absent, rw (differ, found, absent) refl)
    ]
  ]
]

offer-Counted :
    (src : String) (p : MeshPacket) (s : Mesh × ℕ) (dst : String) → Counted s (offer src p s dst)
unfolding Counted update_device Copied
offer-Counted src p (m, n) dst = elim (offer-cases src p (m, n) dst) [
  | inl same ↦ rw same refl
  | inr (d, found, absent, copied) ↦
      let more = packet_count-hold (decrement p) d absent in
      rw copied (omega (arith, total_packets-insert dst d (hold (decrement p) d) m found more))
]

-- The devices together hold no fewer packets after a round of gossip, and the number of transfers
-- that it reports is the number by which they hold more, as an `int`.
pub gossip_once-transfers :
    (m : Mesh)
    → let (result, m') = gossip_once m in
      (total_packets m ≤ total_packets m')
      × (result.transfers ≡ wrap32 (pos (total_packets m' - total_packets m)))
unfolding gossip_once Counted
gossip_once-transfers m =
    let counted =
      gossip_round-rel Counted (λ s. refl) (λ s t u st tu. omega (arith, st, tu)) offer-Counted m in
    let growth : (gossip_round m).1 ≡ total_packets (gossip_round m).0 - total_packets m =
      omega (arith, counted) in
    (omega (arith, counted), ap (λ n. wrap32 (pos n)) growth)
