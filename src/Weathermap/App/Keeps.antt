-- ===== src/Weathermap/App/Keeps.antt =====
-- weathermap/js/app.js: the names on the map and the links of the devices under each event.
use jaspy.Weathermap.DeviceGraph.Statistics.{commit_entries}
use jaspy.Prelude.{
  ℕ, Bool, true, false, String, List, [], ◌∷◌, Dict, ◌≡◌, refl, Outcome, done, threw, ◌>>=◌, state,
  Bool-cases, inl, inr, if◌then◌else◌, ◌||◌, arith,
}
use jaspy.Weathermap.Numbers.{Double, Victor, Screen}
use jaspy.Weathermap.Config.{Config}
use jaspy.Weathermap.Device.{Device}
use jaspy.Weathermap.Device.Status
use jaspy.Weathermap.Device.Status.{PositionData}
use jaspy.Weathermap.Device.Input
use jaspy.Weathermap.Device.Keeps.{
  highlight-SameLinks, press-SameLinks, release-SameLinks, move-SameLinks,
}
use jaspy.Weathermap.DeviceGraph
use jaspy.Weathermap.DeviceGraph.{Map, with_device, each_device}
use jaspy.Weathermap.DeviceGraph.Keeps.{
  devices_of, SameMap, SameMap-refl, SameMap-trans, with_device-SameMap, >>=-SameMap,
}
use jaspy.Weathermap.DeviceGraph.Invariant.{
  stale_events-SameMap, commit_entries-SameMap, update_statuses-SameMap, update_positions-SameMap,
  update_animation-SameMap, update_graphics-SameMap,
}
use jaspy.Weathermap.Device.Topology.{DeviceData}
use jaspy.Weathermap.App.{
  App, Event, Frame, Response, step, frame, graphics_part, animation_part, pixi_part, parts, tick,
  topology_arrived, statistics_arrived, statuses_arrived, positions_arrived, pressed, released,
  moved, position_put_done, viewport_moved, searched, resized, data_update, position_update,
  highlight_all, stale_events_of, batch_of, is_success, is_error, clear_graphics, clear_animation,
  with_map, due, globals_of, finish, start_fetches, Fetch,
}

module _ {S : Type 0} where
  abbrev pub is_topology_event : Event S → Bool
  is_topology_event (topology_arrived data') = true
  is_topology_event _ = false

  pub topology_event :
      (e : Event S)
      → is_topology_event e ≡ true
      → (data' : Dict DeviceData) × (e ≡ topology_arrived data')
  topology_event (topology_arrived data') h = (data', refl)
  topology_event _ h = absurd (ground (arith, h))

module _ {S : Type 0} ⦃num : Double S⦄ where
  stale_events_of-SameMap :
      (r : Response) (m : Map S) → SameMap m.1 (devices_of (stale_events_of r m))
  unfolding stale_events_of
  stale_events_of-SameMap r m = elim (Bool-cases (is_success r)) [
    | inl e ↦ rw e (stale_events-SameMap m)
    | inr e ↦ rw e (SameMap-refl _)
  ]

  data_update-SameMap :
      (now : ℕ) (r1 r2 speed octets : Response) (m : Map S)
      → SameMap m.1 (devices_of (data_update now r1 r2 speed octets m))
  unfolding data_update
  data_update-SameMap now r1 r2 speed octets m =
      elim (Bool-cases (is_error r1 || (is_error r2 || (is_error speed || is_error octets)))) [
        | inl e ↦ rw e (SameMap-refl _)
        | inr e ↦ rw e (
            >>=-SameMap m.1 (stale_events_of speed m) _
              (λ a.
                >>=-SameMap a.1 (stale_events_of octets a) _
                  (λ b.
                    >>=-SameMap b.1 (commit_entries now (batch_of speed octets) b) _
                      (λ c. SameMap-refl c.1)
                      (commit_entries-SameMap now (batch_of speed octets) b))
                  (stale_events_of-SameMap octets a))
              (stale_events_of-SameMap speed m))
      ]

  position_update-SameMap :
      (info : List (String × PositionData S)) (m : Map S)
      → SameMap m.1 (devices_of (position_update info m))
  unfolding position_update
  position_update-SameMap info m =
      >>=-SameMap m.1 (DeviceGraph.update_positions info m) _ (λ a. SameMap-refl a.1)
        (update_positions-SameMap info m)

  highlight_all-SameMap :
      (ks : List String) (m : Map S) → SameMap m.1 (devices_of (highlight_all ks m))
  unfolding highlight_all
  highlight_all-SameMap [] m = SameMap-refl m.1
  highlight_all-SameMap (fqdn ∷ rest) m =
      >>=-SameMap m.1 (with_device fqdn Status.highlight m) (highlight_all rest)
        (highlight_all-SameMap rest)
        (with_device-SameMap fqdn Status.highlight highlight-SameLinks m)

module _ {S : Type 0} ⦃num : Double S⦄ ⦃vic : Victor S⦄ ⦃screen : Screen S⦄
    (config : Config S) where
  abbrev SameFrame : Frame S → Outcome (Frame S) → Type 0
  SameFrame f o = SameMap f.map.1 (state o).map.1

  with_map-SameMap :
      (a : Dict (Device S)) (f : Map S → Frame S) (o : Outcome (Map S))
      → ((m : Map S) → (f m).map ≡ m)
      → SameMap a (devices_of o)
      → SameMap a (state (with_map f o)).map.1
  with_map-SameMap a f (done m) e h = rw (e m) h
  with_map-SameMap a f (threw m) e h = rw (e m) h

  pub graphics_part-SameMap : (now : ℕ) (f : Frame S) → SameFrame f (graphics_part config now f)
  unfolding graphics_part
  graphics_part-SameMap now f =
      elim (Bool-cases (
        due 10000 f.timers.last_graphics_update now
        || (globals_of f.map).request_graphics_update)) [
          | inl e ↦ rw e (
              with_map-SameMap f.map.1 _
                (DeviceGraph.update_graphics config now (clear_graphics f.map)) (λ m. refl)
                (update_graphics-SameMap config now (clear_graphics f.map)))
          | inr e ↦ rw e (SameMap-refl _)
        ]

  animation_part-SameMap : (now : ℕ) (f : Frame S) → SameFrame f (animation_part config now f)
  unfolding animation_part
  animation_part-SameMap now f =
      elim (Bool-cases (
        due 10000 f.timers.last_animation_update now
        || (globals_of f.map).request_animation_update)) [
          | inl e ↦ rw e (
              with_map-SameMap f.map.1 _
                (DeviceGraph.update_animation config (clear_animation f.map)) (λ m. refl)
                (update_animation-SameMap config (clear_animation f.map)))
          | inr e ↦ rw e (SameMap-refl _)
        ]

  pixi_part-SameMap : (f : Frame S) → SameMap f.map.1 (pixi_part f).map.1
  unfolding pixi_part
  pixi_part-SameMap f = elim (Bool-cases (globals_of f.map).request_pixi_frame) [
    | inl e ↦ rw e (SameMap-refl _)
    | inr e ↦ rw e (SameMap-refl _)
  ]

  bind-SameFrame :
      (a : Frame S) (o : Outcome (Frame S)) (f : Frame S → Outcome (Frame S))
      → ((x : Frame S) → SameFrame x (f x))
      → SameFrame a o
      → SameFrame a (o >>= f)
  bind-SameFrame a (done x) f keep h = SameMap-trans h (keep x)
  bind-SameFrame a (threw x) f keep h = h

  parts-SameMap : (now : ℕ) (f : Frame S) → SameFrame f (parts config now f)
  unfolding parts
  parts-SameMap now f =
      bind-SameFrame f (graphics_part config now f) _
        (λ a.
          bind-SameFrame a (animation_part config now a) _ (λ b. pixi_part-SameMap b)
            (animation_part-SameMap now a))
        (graphics_part-SameMap now f)

  map-finish :
      (a : App S) (l : List Fetch) (o : Outcome (Frame S)) → (finish a l o).map ≡ (state o).map
  map-finish a l (done f) = refl
  map-finish a l (threw f) = refl

  frame-SameMap : (now : ℕ) (a : App S) → SameMap a.map.1 (frame config now a).map.1
  unfolding frame
  frame-SameMap now a =
      let (t, l) = start_fetches now (globals_of a.map) a.timers in
      let f : Frame S = record { map = a.map; timers = t; ticker_update = false } in
      rw (map-finish a l (parts config now f)) (parts-SameMap now f)

  choose-SameMap :
      (b : Bool) (x y a : App S)
      → SameMap a.map.1 x.map.1
      → SameMap a.map.1 y.map.1
      → SameMap a.map.1 (if b then x else y).map.1
  choose-SameMap true x y a hx hy = hx
  choose-SameMap false x y a hx hy = hy

  -- Every step but a topology update keeps the names on the map and, of every device, its name, its
  -- neighbours, its flag `superNode` (not the one that a setting or a position sets) and the keys
  -- of its link groups.
  pub step-SameMap :
      (matches : String → String → Bool) (e : Event S) (a : App S)
      → is_topology_event e ≡ false
      → SameMap a.map.1 (step config matches e a).map.1
  unfolding step
  step-SameMap matches (tick now) a h =
      choose-SameMap a.running (frame config now a) a a (frame-SameMap now a) (SameMap-refl _)
  step-SameMap matches (topology_arrived data') a h = absurd (ground (arith, h))
  step-SameMap matches (statistics_arrived now r1 r2 r3 r4) a h =
      data_update-SameMap now r1 r2 r3 r4 a.map
  step-SameMap matches (statuses_arrived now info) a h = update_statuses-SameMap now info a.map
  step-SameMap matches (positions_arrived info) a h = position_update-SameMap info a.map
  step-SameMap matches (pressed fqdn m) a h =
      with_device-SameMap fqdn (Input.press m) (press-SameLinks m) a.map
  step-SameMap matches (released fqdn) a h =
      with_device-SameMap fqdn (λ w d. done (Input.release w d)) release-SameLinks a.map
  step-SameMap matches (moved fqdn p) a h =
      with_device-SameMap fqdn (λ w d. done (Input.move p w d)) (move-SameLinks p) a.map
  step-SameMap matches position_put_done a h = SameMap-refl _
  step-SameMap matches viewport_moved a h = SameMap-refl _
  step-SameMap matches (searched name) a h =
      highlight_all-SameMap (DeviceGraph.find_devices_by_name matches name a.map.1) a.map
  step-SameMap matches (resized width height) a h = SameMap-refl _
