-- ===== src/Service/Mesh/Keeping.antt =====
-- MeshSimulatorService::gossipOnce: the devices keep what they hold.
use upi_w_o_internet.Common.{
  ℕ, String, ◌≡◌, refl, ap, ◌∙◌, inl, inr, false, some, arith, Bool-cases,
}
use upi_w_o_internet.Common.Map.{lookup, lookup-insert}
use upi_w_o_internet.Common.Text.{str_eq, str_eq→≡}
use upi_w_o_internet.Model.Records.{MeshPacket}
use upi_w_o_internet.Service.Mesh.{
  Mesh, VirtualDevice, hold, holds, decrement, offer, update_device, gossip_once,
}
use upi_w_o_internet.Service.Mesh.Gossip.{offer-cases, Copied, gossip_round-rel}

-- The device under a key, unchanged but for what it holds, and holding the packet as it is.
unfoldable pub StillHolds : Mesh → String → VirtualDevice → String → MeshPacket → Type 0
StillHolds m k d id p =
    (d' : VirtualDevice) × (lookup k m ≡ some d')
    × (d'.device_id ≡ d.device_id)
    × (d'.has_internet ≡ d.has_internet)
    × (lookup id d'.held_packets ≡ some p)

unfoldable pub Kept : Mesh × ℕ → Mesh × ℕ → Type 0
Kept s s' =
    (k : String) (d : VirtualDevice) (id : String) (p : MeshPacket)
    → lookup k s.0 ≡ some d
    → lookup id d.held_packets ≡ some p
    → StillHolds s'.0 k d id p

-- A packet that is new to a device does not take the place of another.
lookup-hold :
    (q p : MeshPacket) (e : VirtualDevice) (id : String)
    → holds q.packet_id e ≡ false
    → lookup id e.held_packets ≡ some p
    → lookup id (hold q e).held_packets ≡ some p
unfolding hold holds
lookup-hold q p e id absent held =
    ground (arith, lookup-insert q.packet_id id q e.held_packets, str_eq→≡ q.packet_id id)

one_device :
    (dst k : String) (m : Mesh) (e d : VirtualDevice)
    → dst ≡ k
    → lookup dst m ≡ some e
    → lookup k m ≡ some d
    → e ≡ d
one_device dst k m e d key there found = cc

update-StillHolds :
    (q : MeshPacket) (e : VirtualDevice) (dst : String) (m : Mesh)
    → lookup dst m ≡ some e
    → holds q.packet_id e ≡ false
    → (k : String) (d : VirtualDevice) (id : String) (p : MeshPacket) → lookup k m ≡ some d
    → lookup id d.held_packets ≡ some p
    → StillHolds (update_device dst (hold q e) m) k d id p
unfolding StillHolds update_device hold
update-StillHolds q e dst m there absent k d id p found held = elim (Bool-cases (str_eq dst k)) [
  | inl same ↦
      let key = str_eq→≡ dst k same in
      let device = one_device dst k m e d key there found in
      (
        hold q e,
        rw (lookup-insert dst k (hold q e) m, same) refl,
        ap (λ x. x.device_id) device,
        ap (λ x. x.has_internet) device,
        lookup-hold q p e id absent (rw device held),
      )
  | inr differ ↦ (d, rw (lookup-insert dst k (hold q e) m, differ) found, refl, refl, held)
]

pub offer-Kept :
    (src : String) (p : MeshPacket) (s : Mesh × ℕ) (dst : String) → Kept s (offer src p s dst)
unfolding Kept StillHolds Copied
offer-Kept src q s dst k d id p found held = elim (offer-cases src q s dst) [
  | inl same ↦ rw same (d, found, refl, refl, held)
  | inr (e, there, absent, copied) ↦
      rw copied (update-StillHolds (decrement q) e dst s.0 there absent k d id p found held)
]

pub Kept-refl : (s : Mesh × ℕ) → Kept s s
unfolding Kept StillHolds
Kept-refl s k d id p found held = (d, found, refl, refl, held)

pub Kept-trans : (s t u : Mesh × ℕ) → Kept s t → Kept t u → Kept s u
unfolding Kept StillHolds
Kept-trans s t u st tu k d id p found held =
    let (d₁, found₁, id₁, internet₁, held₁) = st k d id p found held in
    let (d₂, found₂, id₂, internet₂, held₂) = tu k d₁ id p found₁ held₁ in
    (d₂, found₂, id₂ ∙ id₁, internet₂ ∙ internet₁, held₂)

-- A packet that a device holds before a round of gossip it holds after it, unchanged, its
-- time to live included; the device keeps its id and its connectivity.
pub gossip_once-keeps :
    (m : Mesh) (k : String) (d : VirtualDevice) (id : String) (p : MeshPacket)
    → lookup k m ≡ some d
    → lookup id d.held_packets ≡ some p
    → StillHolds (gossip_once m).1 k d id p
unfolding gossip_once Kept
gossip_once-keeps m = gossip_round-rel Kept Kept-refl Kept-trans offer-Kept m
