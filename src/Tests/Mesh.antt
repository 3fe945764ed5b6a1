-- ===== src/Tests/Mesh.antt =====
-- Rounds of gossip among the default devices.
use upi_w_o_internet.Common.{◌-◌, ◌≤◌, ◌≡◌, refl, true, false, arith}
use upi_w_o_internet.Common.Int.{wrap32, pos}
use upi_w_o_internet.Common.Map.{lookup, insert}
use upi_w_o_internet.Model.Records.{MeshPacket}
use upi_w_o_internet.Service.Mesh.{
  Mesh, VirtualDevice, new_device, hold, inject, seed_default_devices, gossip_once, gossip_round,
  snapshot_from, send_all, spread, offer, holds, update_device, get_device, packet_count,
  get_held_packets,
}
use upi_w_o_internet.Service.Mesh.Gossip.{total_packets, gossip_once-transfers}
use upi_w_o_internet.Service.Mesh.Keeping.{StillHolds, gossip_once-keeps}
use upi_w_o_internet.Service.Mesh.Staying.{Holds}
use upi_w_o_internet.Service.Mesh.Reaching.{gossip_once-Holds}

abbrev packet : MeshPacket
packet = record { packet_id = "p1"; ttl = pos 5; created_at = pos 1000; ciphertext = "sealed" }

abbrev alice : VirtualDevice
unfolding hold insert
alice = hold packet (new_device "phone-alice" false)

abbrev seeded : Mesh
unfolding inject get_device seed_default_devices lookup update_device hold insert
seeded = (inject "phone-alice" packet seed_default_devices).1

gossip_test : (gossip_once seeded).0.transfers ≡ pos 4
unfolding wrap32 gossip_once gossip_round snapshot_from send_all spread offer holds update_device
    get_device packet_count get_held_packets seed_default_devices lookup insert hold inject
gossip_test = refl

gossip_once-transfers_example :
    let (result, m') = gossip_once seeded in
    (total_packets seeded ≤ total_packets m')
    × (result.transfers ≡ wrap32 (pos (total_packets m' - total_packets seeded)))
gossip_once-transfers_example = gossip_once-transfers seeded

gossip_once-keeps_example : StillHolds (gossip_once seeded).1 "phone-alice" alice "p1" packet
unfolding inject get_device seed_default_devices lookup update_device hold insert
gossip_once-keeps_example = gossip_once-keeps seeded "phone-alice" alice "p1" packet refl refl

gossip_once-Holds_example : Holds (gossip_once seeded).1 "phone-bridge" "p1"
unfolding inject get_device seed_default_devices lookup update_device hold insert
gossip_once-Holds_example =
    gossip_once-Holds seeded "phone-alice" "phone-bridge" alice (new_device "phone-bridge" true)
      packet (refl, (refl, (refl, (refl, (refl, tt))))) (refl, (refl, (refl, (refl, (refl, tt)))))
      refl refl (omega arith) refl
