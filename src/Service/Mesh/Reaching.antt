-- ===== src/Service/Mesh/Reaching.antt =====
-- MeshSimulatorService::gossipOnce: a live packet comes to every device in one round.
use text.Mathlib.TextEquality.{eq_iff}
use upi_w_o_internet.Common.{
  ℕ, String, ◌≡◌, ◌≢◌, refl, ap, ◌∙◌, false, Option, none, some, List, [], ◌∷◌, foldl, arith,
  Bool-cases, inl, inr,
}
use upi_w_o_internet.Common.Int.{pos, ◌<ℤ◌, <ℤ→leb_ℤ}
use upi_w_o_internet.Common.Map.{Map, IsMap, keys, lookup, insert, lookup-insert}
use upi_w_o_internet.Common.Text.{str_eq, str_eq_refl, str_eq→≡}
use upi_w_o_internet.Model.Records.{MeshPacket}
use upi_w_o_internet.Service.Mesh.{
  Mesh, VirtualDevice, holds, offer, spread, send_all, gossip_round, gossip_once, get_held_packets,
  or_empty, snapshot_from, senders,
}
use upi_w_o_internet.Service.Mesh.Passing.{
  Stands, Stands-cons, head, key-Stands, value-Stands, foldl-passes,
}
use upi_w_o_internet.Service.Mesh.Keeping.{StillHolds, gossip_once-keeps}
use upi_w_o_internet.Service.Mesh.Staying.{
  Holds, Stays, Stays-Holds, offer-Holds, Stays-refl, Stays-trans, Stays-device, spread-Stays,
  send_all-Stays, offer-Stays,
}

sender-Stands :
    (k : String) (d : VirtualDevice) (m : Mesh)
    → lookup k m ≡ some d
    → Stands (k, d.device_id) (senders m)
unfolding lookup
sender-Stands k d [] h = cc
sender-Stands k d ((j, e) ∷ m) h = elim (Bool-cases (str_eq j k)) [
  | inl same ↦ ([], senders m, cc (str_eq→≡ j k same, head j k d e m same h))
  | inr differ ↦ Stands-cons _ (j, e.device_id) (senders m) (sender-Stands k d m (rw differ at h))
]

-- Each device stands under its own id.
abbrev pub IsKeyed : Mesh → Type 0
IsKeyed [] = Unit
IsKeyed ((k, d) ∷ m) = (k ≡ d.device_id) × IsKeyed m

abbrev held_or : Option (List MeshPacket) → Option VirtualDevice → Option (List MeshPacket)
held_or before none = before
held_or before (some d) = some (get_held_packets d)

lookup-snapshot_from :
    (k : String) (held : Map (List MeshPacket)) (m : Mesh)
    → IsMap m
    → IsKeyed m
    → lookup k (snapshot_from held m) ≡ held_or (lookup k held) (lookup k m)
unfolding snapshot_from lookup
lookup-snapshot_from k held [] unique keyed = refl
lookup-snapshot_from k held ((j, d) ∷ m) unique keyed =
    let held' = insert d.device_id (get_held_packets d) held in
    ground (
      arith,
      eq_iff j k,
      keyed.0,
      lookup-insert d.device_id k (get_held_packets d) held,
      lookup-snapshot_from k held' m unique.1 keyed.1,
    )

IsKeyed-id :
    (k : String) (d : VirtualDevice) (m : Mesh) → IsKeyed m → lookup k m ≡ some d → k ≡ d.device_id
unfolding lookup
IsKeyed-id k d [] keyed found = cc
IsKeyed-id k d ((j, e) ∷ m) keyed found =
    ground (arith, eq_iff j k, keyed.0, IsKeyed-id k d m keyed.1)

-- The snapshot has what a device holds.
sends_packet :
    (k : String) (d : VirtualDevice) (p : MeshPacket) (m : Mesh)
    → IsMap m
    → IsKeyed m
    → lookup k m ≡ some d
    → lookup p.packet_id d.held_packets ≡ some p
    → Stands p (or_empty (lookup d.device_id (snapshot_from [] m)))
unfolding get_held_packets lookup
sends_packet k d p m unique keyed found has =
    let shot : lookup d.device_id (snapshot_from [] m) ≡ some (get_held_packets d) =
      rw (← IsKeyed-id k d m keyed found)
        (lookup-snapshot_from k [] m unique keyed ∙ ap (held_or none) found) in
    rw shot (value-Stands p.packet_id p d.held_packets has)

not_same : (s t : String) → s ≡ t → str_eq s t ≡ false → ⊥
not_same s t e differ = cc (ap (str_eq s) e, str_eq_refl s)

-- A live packet of `src` comes to the device `dst`.
module _ (src dst : String) (p : MeshPacket) (other : src ≢ dst) (live : pos 0 <ℤ p.ttl) where
  spread-Holds :
      (devices : List String) (s : Mesh × ℕ) (d : VirtualDevice)
      → Stands dst devices
      → lookup dst s.0 ≡ some d
      → Holds (spread devices src s p).0 dst p.packet_id
  unfolding spread
  spread-Holds devices s d stands found =
      let (t, st, ts) =
        foldl-passes (offer src p) Stays Stays-refl Stays-trans (offer-Stays src p) s dst devices
          stands in
      let (d', found') = Stays-device s t dst d st found in
      rw (<ℤ→leb_ℤ p.ttl (pos 0) live) (
        Stays-Holds (offer src p t dst) (foldl (offer src p) s devices) dst p.packet_id ts
          (offer-Holds src dst p t d' other found'))

  send_all-Holds :
      (devices : List String) (held : Map (List MeshPacket)) (id : String) (s : Mesh × ℕ)
      (d : VirtualDevice)
      → Stands dst devices
      → Stands p (or_empty (lookup id held))
      → lookup dst s.0 ≡ some d
      → Holds (send_all devices held s (src, id)).0 dst p.packet_id
  unfolding send_all
  send_all-Holds devices held id s d stands sent found =
      let (t, st, ts) =
        foldl-passes (spread devices src) Stays Stays-refl Stays-trans (spread-Stays devices src) s
          p (or_empty (lookup id held)) sent in
      let (d', found') = Stays-device s t dst d st found in
      Stays-Holds (spread devices src t p)
        (foldl (spread devices src) s (or_empty (lookup id held))) dst p.packet_id ts
        (spread-Holds devices t d' stands found')

  gossip_round-Holds :
      (m : Mesh) (d e : VirtualDevice)
      → IsMap m
      → IsKeyed m
      → lookup src m ≡ some d
      → lookup p.packet_id d.held_packets ≡ some p
      → lookup dst m ≡ some e
      → Holds (gossip_round m).0 dst p.packet_id
  unfolding gossip_round
  gossip_round-Holds m d e unique keyed found has there =
      let held = snapshot_from [] m in
      let devices = keys m in
      let (t, st, ts) =
        foldl-passes (send_all devices held) Stays Stays-refl Stays-trans
          (send_all-Stays devices held) (m, 0) (src, d.device_id) (senders m)
          (sender-Stands src d m found) in
      let (e', there') = Stays-device (m, 0) t dst e st there in
      Stays-Holds (send_all devices held t (src, d.device_id))
        (foldl (send_all devices held) (m, 0) (senders m)) dst p.packet_id ts
        (send_all-Holds devices held d.device_id t e' (key-Stands dst e m there)
          (sends_packet src d p m unique keyed found has) there')

-- Every device that is there holds, after a round of gossip, every packet that a device held before it
-- with hops left; if each device stands once, under its own id.
pub gossip_once-Holds :
    (m : Mesh) (src dst : String) (d e : VirtualDevice) (p : MeshPacket)
    → IsMap m
    → IsKeyed m
    → lookup src m ≡ some d
    → lookup p.packet_id d.held_packets ≡ some p
    → pos 0 <ℤ p.ttl
    → lookup dst m ≡ some e
    → Holds (gossip_once m).1 dst p.packet_id
unfolding gossip_once StillHolds holds
gossip_once-Holds m src dst d e p unique keyed found has live there =
    elim (Bool-cases (str_eq src dst)) [
      | inr differ ↦
          gossip_round-Holds src dst p (λ same. not_same src dst same differ) live m d e unique
            keyed found has there
      | inl same ↦
          let (d', found', same_id, same_internet, held') =
            gossip_once-keeps m src d p.packet_id p found has in
          (d', rw (← str_eq→≡ src dst same) found', rw held' refl)
    ]
