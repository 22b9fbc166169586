-- ===== src/Weathermap/DeviceGraph/Invariant.antt =====
-- weathermap/js/devicegraph.js: the links of the devices under each operation but the topology's.
use jaspy.Prelude.{ℕ, Bool, true, false, String, List, [], ◌∷◌, Dict, keys, done, if◌then◌else◌}
use jaspy.Weathermap.Numbers.{Double, Victor, Screen}
use jaspy.Weathermap.Config.{Config}
use jaspy.Weathermap.Interface.{Stats}
use jaspy.Weathermap.Device.{Device, check_stale, interface_update_event}
use jaspy.Weathermap.Device.Linked.{SameLinks}
use jaspy.Weathermap.Device.Status
use jaspy.Weathermap.Device.Status.{DeviceStatus, PositionData}
use jaspy.Weathermap.Device.Keeps.{
  SameLinks-refl, SameLinks-trans, interface_update_event-SameLinks, check_stale-SameLinks,
  update_statistics-SameLinks, set_status-SameLinks, update_weathermap_position-SameLinks,
  update_animation-SameLinks, update_graphics-SameLinks,
}
use jaspy.Weathermap.DeviceGraph.{
  Map, with_device, set_statuses, refresh_stale, update_statuses, update_positions,
  update_animation, update_graphics,
}
use jaspy.Weathermap.DeviceGraph.Statistics.{stale_events, stale_event, commit_entries}
use jaspy.Weathermap.DeviceGraph.Keeps.{
  SameMap, SameMap-refl, devices_of, with_device-SameMap, >>=-SameMap, each_device-SameMap,
}

module _ {S : Type 0} where
  notified-SameLinks :
      (b : Bool) (d : Device S) → SameLinks d (if b then interface_update_event d else d)
  notified-SameLinks true d = interface_update_event-SameLinks d
  notified-SameLinks false d = SameLinks-refl d

  stale_event-SameLinks : (d : Device S) → SameLinks d (stale_event d)
  unfolding stale_event
  stale_event-SameLinks d = notified-SameLinks d.stale d

  pub stale_events-SameMap : (m : Map S) → SameMap m.1 (devices_of (stale_events m))
  unfolding stale_events
  stale_events-SameMap m = each_device-SameMap _ (λ _ w d. stale_event-SameLinks d) (keys m.1) m

  pub commit_entries-SameMap :
      (now : ℕ) (entries : List (String × Dict (Stats S))) (m : Map S)
      → SameMap m.1 (devices_of (commit_entries now entries m))
  unfolding commit_entries
  commit_entries-SameMap now [] m = SameMap-refl m.1
  commit_entries-SameMap now ((fqdn, stats) ∷ rest) m =
      >>=-SameMap m.1 (with_device fqdn (Status.update_statistics now stats) m)
        (commit_entries now rest) (commit_entries-SameMap now rest)
        (with_device-SameMap fqdn (Status.update_statistics now stats)
          (update_statistics-SameLinks now stats) m)

module _ {S : Type 0} ⦃num : Double S⦄ where
  refresh_stale-SameLinks : (now : ℕ) (d : Device S) → SameLinks d (refresh_stale now d)
  unfolding refresh_stale
  refresh_stale-SameLinks now d =
      let d' = check_stale now d in
      SameLinks-trans {e = d'} (check_stale-SameLinks now d) (notified-SameLinks d'.stale d')

  set_statuses-SameMap :
      (now : ℕ) (info : List (String × DeviceStatus)) (m : Map S)
      → SameMap m.1 (devices_of (set_statuses now info m))
  unfolding set_statuses
  set_statuses-SameMap now [] m = SameMap-refl m.1
  set_statuses-SameMap now ((fqdn, s) ∷ rest) m =
      >>=-SameMap m.1 (with_device fqdn (Status.set_status now s) m) (set_statuses now rest)
        (set_statuses-SameMap now rest)
        (with_device-SameMap fqdn (Status.set_status now s) (set_status-SameLinks now s) m)

  pub update_statuses-SameMap :
      (now : ℕ) (info : Dict DeviceStatus) (m : Map S)
      → SameMap m.1 (devices_of (update_statuses now info m))
  unfolding update_statuses
  update_statuses-SameMap now info m =
      >>=-SameMap m.1 (set_statuses now info m) _
        (λ m'. each_device-SameMap _ (λ _ w d. refresh_stale-SameLinks now d) (keys m'.1) m')
        (set_statuses-SameMap now info m)

  pub update_positions-SameMap :
      (info : List (String × PositionData S)) (m : Map S)
      → SameMap m.1 (devices_of (update_positions info m))
  unfolding update_positions
  update_positions-SameMap [] m = SameMap-refl m.1
  update_positions-SameMap ((fqdn, p) ∷ rest) m =
      >>=-SameMap m.1 (with_device fqdn (λ w d. done (Status.update_weathermap_position p w d)) m)
        (update_positions rest) (update_positions-SameMap rest)
        (with_device-SameMap fqdn (λ w d. done (Status.update_weathermap_position p w d))
          (update_weathermap_position-SameLinks p) m)

module _ {S : Type 0} ⦃num : Double S⦄ ⦃vic : Victor S⦄ where
  pub update_animation-SameMap :
      (config : Config S) (m : Map S) → SameMap m.1 (devices_of (update_animation config m))
  unfolding update_animation
  update_animation-SameMap config m =
      each_device-SameMap _ (update_animation-SameLinks config) (keys m.1) m

  pub update_graphics-SameMap :
      ⦃screen : Screen S⦄
      → (config : Config S) (now : ℕ) (m : Map S)
      → SameMap m.1 (devices_of (update_graphics config now m))
  unfolding update_graphics
  update_graphics-SameMap config now m =
      each_device-SameMap _ (update_graphics-SameLinks config now) (keys m.1) m
