-- ===== src/Service/Mesh/Staying.antt =====
-- What stays through a round of gossip: the devices and their packets.
use upi_w_o_internet.Common.{
  ℕ, String, ◌≡◌, ◌≢◌, refl, sym, true, none, some, List, Option-cases, Bool-cases, inl, inr,
}
use upi_w_o_internet.Common.Map.{Map, lookup, lookup-insert, lookup-insert_self}
use upi_w_o_internet.Common.Text.{str_eq, ≢→str_eq}
use upi_w_o_internet.Model.Records.{MeshPacket}
use upi_w_o_internet.Service.Mesh.{
  Mesh, VirtualDevice, hold, holds, decrement, offer, spread, send_all, update_device,
}
use upi_w_o_internet.Service.Mesh.Gossip.{offer-cases, Copied, spread-rel, send_all-rel}
use upi_w_o_internet.Service.Mesh.Keeping.{Kept, Kept-refl, Kept-trans, offer-Kept, StillHolds}

-- Devices stay and keep their packets.
unfoldable pub Stays : Mesh × ℕ → Mesh × ℕ → Type 0
Stays s s' =
    Kept s s'
    × ((k : String) (d : VirtualDevice)
        → lookup k s.0 ≡ some d
        → (d' : VirtualDevice) × (lookup k s'.0 ≡ some d'))

-- The device under a key holds a packet with an id.
abbrev pub Holds : Mesh → String → String → Type 0
Holds m k id = (d : VirtualDevice) × (lookup k m ≡ some d) × (holds id d ≡ true)

pub offer-Stays :
    (src : String) (p : MeshPacket) (s : Mesh × ℕ) (dst : String) → Stays s (offer src p s dst)
unfolding Stays Copied update_device
offer-Stays src p s dst = (
  offer-Kept src p s dst,
  λ k d found. elim (offer-cases src p s dst) [
    | inl same ↦ rw same (d, found)
    | inr (e, there, absent, copied) ↦
        let after = lookup-insert dst k (hold (decrement p) e) s.0 in
        rw copied (elim (Bool-cases (str_eq dst k)) [
          | inl same ↦ (hold (decrement p) e, rw (after, same) refl)
          | inr differ ↦ (d, rw (after, differ) found)
        ])
  ],
)

not_held :
    (id : String) (d : VirtualDevice) → lookup id d.held_packets ≡ none → holds id d ≡ true → ⊥
unfolding holds
not_held id d missing held = cc (rw missing at held)

pub Stays-Holds : (s s' : Mesh × ℕ) (k id : String) → Stays s s' → Holds s.0 k id → Holds s'.0 k id
unfolding Stays Kept StillHolds holds
Stays-Holds s s' k id (kept, stays) (d, found, held) =
    elim (Option-cases (lookup id d.held_packets)) [
      | inl missing ↦ absurd (not_held id d missing held)
      | inr (p, there) ↦
          let (d', found', same_id, same_internet, held') = kept k d id p found there in
          (d', found', rw held' refl)
    ]

holds-hold : (p : MeshPacket) (d : VirtualDevice) → holds p.packet_id (hold (decrement p) d) ≡ true
unfolding holds hold
holds-hold p d = rw (lookup-insert_self p.packet_id (decrement p) d.held_packets) refl

-- The device that the packet is offered to holds it then.
pub offer-Holds :
    (src dst : String) (p : MeshPacket) (s : Mesh × ℕ) (d : VirtualDevice)
    → src ≢ dst
    → lookup dst s.0 ≡ some d
    → Holds (offer src p s dst).0 dst p.packet_id
unfolding offer update_device
offer-Holds src dst p (m, n) d other found =
    let differ = ≢→str_eq dst src (λ e. other (sym e)) in
    elim (Bool-cases (holds p.packet_id d)) [
      | inl held ↦ rw (differ, found, held) (d, found, held)
      | inr absent ↦
          rw (differ, found, absent)
            (hold (decrement p) d, lookup-insert_self dst (hold (decrement p) d) m, holds-hold p d)
    ]

pub Stays-refl : (s : Mesh × ℕ) → Stays s s
unfolding Stays
Stays-refl s = (Kept-refl s, λ k d found. (d, found))

pub Stays-trans : (s t u : Mesh × ℕ) → Stays s t → Stays t u → Stays s u
unfolding Stays
Stays-trans s t u (kept, stays) (kept', stays') = (
  Kept-trans s t u kept kept',
  λ k d found. let (d', found') = stays k d found in stays' k d' found',
)

pub Stays-device :
    (s t : Mesh × ℕ) (k : String) (d : VirtualDevice)
    → Stays s t
    → lookup k s.0 ≡ some d
    → (d' : VirtualDevice) × (lookup k t.0 ≡ some d')
unfolding Stays
Stays-device s t k d st found = st.1 k d found

pub spread-Stays :
    (devices : List String) (src : String) (s : Mesh × ℕ) (p : MeshPacket)
    → Stays s (spread devices src s p)
spread-Stays = spread-rel Stays Stays-refl Stays-trans offer-Stays

pub send_all-Stays :
    (devices : List String) (held : Map (List MeshPacket)) (s : Mesh × ℕ) (sender : String × String)
    → Stays s (send_all devices held s sender)
send_all-Stays = send_all-rel Stays Stays-refl Stays-trans offer-Stays
