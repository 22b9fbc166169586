-- ===== src/Weathermap/DeviceGraph.antt =====
-- weathermap/js/devicegraph.js: the devices of the map and the batch of statistics. A loop over
-- `Object.entries(this.devices)` is a loop over the keys there are at its start.
pub mod Membership
pub mod Linked
pub mod Keeps
pub mod Invariant
pub mod Drawable
pub mod Groups
pub mod BatchLaws
pub mod Search
pub mod Statistics
use jaspy.Prelude.{
  ℕ, Bool, true, false, String, Option, none, some, List, [], ◌∷◌, Dict, get, has, put, delete,
  keys, if◌then◌else◌, str_eq, Outcome, done, threw, ◌>>=◌,
}
use jaspy.Weathermap.Numbers.{Double, Victor, Screen}
use jaspy.Weathermap.Interface.{Stats}
use jaspy.Weathermap.World.{World}
use jaspy.Weathermap.Device
use jaspy.Weathermap.Device.{Device, new_device, check_stale, interface_update_event}
use jaspy.Weathermap.Device.Topology
use jaspy.Weathermap.Device.Topology.{DeviceData}
use jaspy.Weathermap.Device.Status
use jaspy.Weathermap.Device.Status.{DeviceStatus, PositionData}
use jaspy.Weathermap.Device.Animation
use jaspy.Weathermap.Device.Draw
use jaspy.Weathermap.Config.{Config}

-- `updateBatch`
abbrev pub Batch : Type 0 → Type 0
Batch S = Dict (Dict (Stats S))

-- The shared state and the graph's devices.
abbrev pub Map : Type 0 → Type 0
Map S = World S × Dict (Device S)

module _ {S : Type 0} where
  abbrev pub store : String → Dict (Device S) → Outcome (World S × Device S) → Outcome (Map S)
  store key devices (done (w, d)) = done (w, put key d devices)
  store key devices (threw (w, d)) = threw (w, put key d devices)

  -- A statement about the device of a name, and what it does to the map; nothing without one.
  unfoldable pub with_device :
      String → (World S → Device S → Outcome (World S × Device S)) → Map S → Outcome (Map S)
  with_device key f (w, devices) = elim (get key devices) [
    | none ↦ done (w, devices)
    | some d ↦ store key devices (f w d)
  ]

  -- A loop over devices, which an exception ends.
  unfoldable pub each_device :
      (Dict (Device S) → World S → Device S → Outcome (World S × Device S))
      → List String
      → Map S
      → Outcome (Map S)
  each_device f [] m = done m
  each_device f (key ∷ rest) m = with_device key (f m.1) m >>= each_device f rest

module _ {S : Type 0} ⦃num : Double S⦄ where
  -- The first loop of `updateTopologyData`.
  unfoldable pub ensure_device : String → Map S → Map S
  ensure_device key (w, devices) =
      if has key devices
      then (w, devices)
      else (let (w', d) = new_device key w in (w', put key d devices))

  unfoldable pub update_device : String → DeviceData → Map S → Map S
  update_device key value (w, devices) = elim (get key devices) [
    | none ↦ (w, devices)
    | some d ↦ let (w', d') = Topology.update_topology_data value w d in (w', put key d' devices)
  ]

  unfoldable pub update_devices : List (String × DeviceData) → Map S → Map S
  unfolding ensure_device update_device
  update_devices [] m = m
  update_devices ((key, value) ∷ rest) m =
      update_devices rest (update_device key value (ensure_device key m))

module _ {S : Type 0} where
  -- The second loop: devices that the data no longer has.
  unfoldable pub drop_devices : Dict DeviceData → List (String × Device S) → Map S → Map S
  drop_devices data' [] m = m
  drop_devices data' ((key, value) ∷ rest) (w, devices) =
      drop_devices data' rest
        (if has key data' then (w, devices) else (Topology.destroy value w, delete key devices))

  -- One round of the third loop.
  unfoldable pub link_device : String → Map S → Map S
  link_device key (w, devices) = elim (get key devices) [
    | none ↦ (w, devices)
    | some d ↦ let (w', d') = Topology.update_linkgroup_data devices w d in (w', put key d' devices)
  ]

  unfoldable pub link_devices : List String → Map S → Map S
  link_devices [] m = m
  link_devices (key ∷ rest) m = link_devices rest (link_device key m)

module _ {S : Type 0} ⦃num : Double S⦄ where
  unfoldable pub update_topology_data : Dict DeviceData → Map S → Map S
  update_topology_data data' m =
      let m' = update_devices data' m in
      let kept = drop_devices data' m'.1 m' in link_devices (keys kept.1) kept

  -- `updateStatuses`: the reports, then the devices that have had none for a while.
  unfoldable pub set_statuses : ℕ → List (String × DeviceStatus) → Map S → Outcome (Map S)
  set_statuses now [] m = done m
  set_statuses now ((fqdn, status) ∷ rest) m =
      with_device fqdn (Status.set_status now status) m >>= set_statuses now rest

  unfoldable pub refresh_stale : ℕ → Device S → Device S
  refresh_stale now d =
      let d' = check_stale now d in if d'.stale then interface_update_event d' else d'

  unfoldable pub update_statuses : ℕ → Dict DeviceStatus → Map S → Outcome (Map S)
  update_statuses now info m = do
    m' ← set_statuses now info m
    each_device (λ _ w d. done (w, refresh_stale now d)) (keys m'.1) m'

  unfoldable pub update_positions : List (String × PositionData S) → Map S → Outcome (Map S)
  update_positions [] m = done m
  update_positions ((fqdn, value) ∷ rest) m =
      with_device fqdn (λ w d. done (Status.update_weathermap_position value w d)) m
      >>= update_positions rest

  unfoldable pub update_animation : ⦃vic : Victor S⦄ → Config S → Map S → Outcome (Map S)
  update_animation config m = each_device (Animation.update_animation config) (keys m.1) m

-- `fqdn.match(name)`, where `matches` tells whether a text contains a match of an expression.
module _ {S : Type 0} (matches : String → String → Bool) where
  unfoldable pub find_devices_by_name : String → Dict (Device S) → List String
  find_devices_by_name name [] = []
  find_devices_by_name name ((fqdn, d) ∷ rest) =
      let found = find_devices_by_name name rest in
      if matches fqdn name then fqdn ∷ found else found

module _ {S : Type 0} ⦃num : Double S⦄ ⦃vic : Victor S⦄ ⦃screen : Screen S⦄ where
  unfoldable pub update_graphics : Config S → ℕ → Map S → Outcome (Map S)
  update_graphics config now m = each_device (Draw.update_graphics config now) (keys m.1) m
