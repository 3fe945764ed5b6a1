-- ===== src/Service/Mesh.antt =====
-- service/MeshSimulatorService.cpp: the simulated phones and their packets.
-- A device is named by its key in `devices_`, which stands for the pointer to it: there is one
-- object under each key. The order of a hash map's entries is that of the list.
pub mod Gossip
pub mod Keeping
pub mod Passing
pub mod Staying
pub mod Reaching
use Prim.Native.String.{◌++◌ as ◌<>◌}
use upi_w_o_internet.Common.{
  ℕ, suc, String, Bool, true, false, Option, none, some, List, [], ◌∷◌, ◌++◌, map, foldl, length,
  if◌then◌else◌,
}
use upi_w_o_internet.Common.Int.{ℤ, wrap32, pos, leb_ℤ, ◌-ℤ◌}
use upi_w_o_internet.Common.Map.{Map, lookup, insert, contains, values, keys}
use upi_w_o_internet.Common.Text.{str_eq}
use upi_w_o_internet.Common.Result.{Action, ok, err, invalid_argument}
use upi_w_o_internet.Model.Records.{MeshPacket}

pub record VirtualDevice : Type 0 where
  pub device_id : String
  pub has_internet : Bool
  pub held_packets : Map MeshPacket

abbrev pub new_device : String → Bool → VirtualDevice
new_device id internet = record { device_id = id; has_internet = internet; held_packets = [] }

-- `VirtualDevice::hold`
unfoldable pub hold : MeshPacket → VirtualDevice → VirtualDevice
hold p d = record d { held_packets = insert p.packet_id p d.held_packets }

unfoldable pub holds : String → VirtualDevice → Bool
holds id d = contains id d.held_packets

unfoldable pub packet_count : VirtualDevice → ℕ
packet_count d = length d.held_packets

unfoldable pub get_held_packets : VirtualDevice → List MeshPacket
get_held_packets d = values d.held_packets

-- `VirtualDevice::clear`
unfoldable pub clear : VirtualDevice → VirtualDevice
clear d = record d { held_packets = [] }

-- `devices_`
abbrev pub Mesh : Type 0
Mesh = Map VirtualDevice

pub record GossipResult : Type 0 where
  pub transfers : ℤ
  pub device_counts : Map ℕ

pub record BridgeUpload : Type 0 where
  pub bridge_node_id : String
  pub packet : MeshPacket

unfoldable pub seed_default_devices : Mesh
seed_default_devices =
    ("phone-alice", new_device "phone-alice" false)
    ∷ ("phone-stranger1", new_device "phone-stranger1" false)
    ∷ ("phone-stranger2", new_device "phone-stranger2" false)
    ∷ ("phone-stranger3", new_device "phone-stranger3" false)
    ∷ ("phone-bridge", new_device "phone-bridge" true)
    ∷ []

unfoldable pub get_devices : Mesh → List VirtualDevice
get_devices m = values m

unfoldable pub get_device : String → Mesh → Option VirtualDevice
get_device id m = lookup id m

-- A write through the pointer to a device.
unfoldable pub update_device : String → VirtualDevice → Mesh → Mesh
update_device k d m = insert k d m

unfoldable pub inject : String → MeshPacket → Action Mesh (Unit {0})
unfolding get_device hold update_device
inject sender_device_id packet m = elim (get_device sender_device_id m) [
  | none ↦ (err (invalid_argument ("Unknown device: " <> sender_device_id)), m)
  | some sender ↦ (ok tt, update_device sender_device_id (hold packet sender) m)
]

-- What each device holds when the round starts, by device id.
unfoldable pub snapshot_from : Map (List MeshPacket) → Mesh → Map (List MeshPacket)
unfolding get_held_packets
snapshot_from held [] = held
snapshot_from held ((k, d) ∷ m) = snapshot_from (insert d.device_id (get_held_packets d) held) m

abbrev pub decrement : MeshPacket → MeshPacket
decrement p = record p { ttl = p.ttl -ℤ pos 1 }

-- The innermost loop's body: one packet of `src`, offered to `dst`.
unfoldable pub offer : String → MeshPacket → Mesh × ℕ → String → Mesh × ℕ
unfolding holds hold update_device
offer src pkt (m, transfers) dst = if str_eq dst src then (m, transfers) else elim (lookup dst m) [
  | none ↦ (m, transfers)
  | some d ↦
      if holds pkt.packet_id d
      then (m, transfers)
      else (update_device dst (hold (decrement pkt) d) m, suc transfers)
]

-- The loop over the receivers of one packet.
unfoldable pub spread : List String → String → Mesh × ℕ → MeshPacket → Mesh × ℕ
unfolding offer
spread devices src state pkt =
    if leb_ℤ pkt.ttl (pos 0) then state else foldl (offer src pkt) state devices

abbrev pub or_empty : Option (List MeshPacket) → List MeshPacket
or_empty none = []
or_empty (some ps) = ps

-- The loop over the packets of one sender; `snapshot[id]` is empty for a missing id.
unfoldable pub send_all :
    List String → Map (List MeshPacket) → Mesh × ℕ → String × String → Mesh × ℕ
unfolding spread
send_all devices held state (src, id) = foldl (spread devices src) state (or_empty (lookup id held))

-- The senders: key and device id.
abbrev pub senders : Mesh → List (String × String)
senders [] = []
senders ((k, d) ∷ m) = (k, d.device_id) ∷ senders m

-- `snapshotMap`
unfoldable pub snapshot_map : Mesh → Map ℕ
unfolding packet_count
snapshot_map [] = []
snapshot_map ((k, d) ∷ m) = (k, packet_count d) ∷ snapshot_map m

unfoldable pub gossip_round : Mesh → Mesh × ℕ
unfolding snapshot_from send_all
gossip_round m = foldl (send_all (keys m) (snapshot_from [] m)) (m, 0) (senders m)

unfoldable pub gossip_once : Mesh → GossipResult × Mesh
unfolding gossip_round snapshot_map
gossip_once m =
    let (m', transfers) = gossip_round m in
    (record { transfers = wrap32 (pos transfers); device_counts = snapshot_map m' }, m')

abbrev upload : String → MeshPacket → BridgeUpload
upload id p = record { bridge_node_id = id; packet = p }

unfoldable pub collect_bridge_uploads : Mesh → List BridgeUpload
unfolding get_held_packets
collect_bridge_uploads [] = []
collect_bridge_uploads ((k, d) ∷ m) =
    (if d.has_internet then map (upload d.device_id) (get_held_packets d) else [])
    ++ collect_bridge_uploads m

unfoldable pub reset_mesh : Mesh → Mesh
unfolding clear
reset_mesh [] = []
reset_mesh ((k, d) ∷ m) = (k, clear d) ∷ reset_mesh m
