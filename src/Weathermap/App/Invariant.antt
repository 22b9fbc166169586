-- ===== src/Weathermap/App/Invariant.antt =====
-- weathermap/js/app.js: the links of the devices in the states that the page reaches.
use jaspy.Prelude.{
  Bool, String, List, [], ◌∷◌, get, keys, ◌≡◌, refl, done, Bool-cases, inl, inr, Option-cases,
}
use jaspy.Weathermap.Numbers.{Double, Victor, Screen}
use jaspy.Weathermap.Config.{Config}
use jaspy.Weathermap.Device.Animation
use jaspy.Weathermap.Device.Animates.{update_animation-done}
use jaspy.Weathermap.Device.Keeps.{update_animation-SameLinks}
use jaspy.Weathermap.DeviceGraph
use jaspy.Weathermap.DeviceGraph.{Map, with_device, each_device}
use jaspy.Weathermap.DeviceGraph.Linked.{AllLinked, update_topology_data-AllLinked, AllLinked-empty}
use jaspy.Weathermap.DeviceGraph.Keeps.{SameMap, AllLinked-SameMap, with_device-SameMap}
use jaspy.Weathermap.App.Keeps.{is_topology_event, topology_event, step-SameMap}
use jaspy.Weathermap.App.{App, Event, step, run}

module _ {S : Type 0} ⦃num : Double S⦄ ⦃vic : Victor S⦄ (config : Config S) where
  animate_one-done :
      (key : String) (m : Map S)
      → AllLinked m.1
      → (r : Map S) × (with_device key (Animation.update_animation config m.1) m ≡ done r)
  unfolding with_device
  animate_one-done key (w, devices) h = elim (Option-cases (get key devices)) [
    | inl e ↦ rw (e, with_device) ((w, devices), refl)
    | inr (d, e) ↦
        let (r, f) = update_animation-done config devices w d h (h key d e) in
        rw (e, with_device) (rw f (_, refl))
  ]

  animate_each-done :
      (ks : List String) (m : Map S)
      → AllLinked m.1
      → (r : Map S) × (each_device (Animation.update_animation config) ks m ≡ done r)
  unfolding each_device
  animate_each-done [] m h = (m, refl)
  animate_each-done (key ∷ rest) m h =
      let (r, e) = animate_one-done key m h in
      let kept : SameMap m.1 r.1 = rw e at (
        with_device-SameMap key (Animation.update_animation config m.1)
          (update_animation-SameLinks config m.1) m) in
      rw e (animate_each-done rest r (AllLinked-SameMap m.1 r.1 kept h))

  -- Where all devices are linked, a frame of animation returns.
  pub update_animation-returns :
      (m : Map S) → AllLinked m.1 → (r : Map S) × (DeviceGraph.update_animation config m ≡ done r)
  unfolding DeviceGraph.update_animation
  update_animation-returns m h = animate_each-done (keys m.1) m h

module _ {S : Type 0} ⦃num : Double S⦄ ⦃vic : Victor S⦄ ⦃screen : Screen S⦄
    (config : Config S) where
  -- Every step keeps all devices linked.
  pub step-AllLinked :
      (matches : String → String → Bool) (e : Event S) (a : App S)
      → AllLinked a.map.1
      → AllLinked (step config matches e a).map.1
  unfolding step
  step-AllLinked matches e a h = elim (Bool-cases (is_topology_event e)) [
    | inl t ↦
        let (data', same) = topology_event e t in
        rw same (update_topology_data-AllLinked data' a.map)
    | inr other ↦
        AllLinked-SameMap a.map.1 (step config matches e a).map.1
          (step-SameMap config matches e a other) h
  ]

  pub run-AllLinked :
      (matches : String → String → Bool) (es : List (Event S)) (a : App S)
      → AllLinked a.map.1
      → AllLinked (run config matches es a).map.1
  unfolding run
  run-AllLinked matches [] a h = h
  run-AllLinked matches (e ∷ es) a h =
      run-AllLinked matches es (step config matches e a) (step-AllLinked matches e a h)

  -- From an empty map, after any events in any order, a frame of animation returns.
  pub update_animation-run :
      (matches : String → String → Bool) (es : List (Event S)) (a : App S)
      → a.map.1 ≡ []
      → (r : Map S) × (DeviceGraph.update_animation config (run config matches es a).map ≡ done r)
  update_animation-run matches es a e =
      update_animation-returns config (run config matches es a).map
        (run-AllLinked matches es a (AllLinked-empty a.map.1 e))
