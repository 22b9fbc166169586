-- ===== src/Weathermap/App/Running.antt =====
-- weathermap/js/app.js: the parts of a frame, and whether the loop runs on.
use jaspy.Weathermap.App.Invariant.{step-AllLinked, update_animation-returns}
use jaspy.Weathermap.DeviceGraph.Drawable.{
  AllDrawable, AllDrawable-SameMap, AllDrawable-empty, update_graphics-returns,
}
use jaspy.Weathermap.DeviceGraph.Groups.{Closed, update_topology_data-AllDrawable}
use jaspy.Prelude.{
  ℕ, Bool, true, false, String, List, [], ◌∷◌, ◌≡◌, refl, done, state, Bool-cases, inl, inr,
  if◌then◌else◌, ◌||◌, All, subst, ap, ◌∙◌,
}
use jaspy.Weathermap.Numbers.{Double, Victor, Screen}
use jaspy.Weathermap.Config.{Config}
use jaspy.Weathermap.DeviceGraph.Linked.{AllLinked, AllLinked-empty}
use jaspy.Weathermap.DeviceGraph.Keeps.{SameMap, AllLinked-SameMap}
use jaspy.Weathermap.App.Keeps.{
  is_topology_event, topology_event, step-SameMap, graphics_part-SameMap,
}
use jaspy.Weathermap.App.{
  App, Event, Frame, step, run, frame, graphics_part, animation_part, parts, tick, topology_arrived,
  clear_graphics, clear_animation, due, globals_of, start_fetches,
}

module _ {S : Type 0} where
  -- The topology that an event brings, if it brings one, names only devices of its own.
  abbrev pub ClosedEvent : Event S → Type 0
  ClosedEvent (topology_arrived data') = Closed data'
  ClosedEvent _ = Unit

module _ {S : Type 0} ⦃num : Double S⦄ ⦃vic : Victor S⦄ ⦃screen : Screen S⦄ (config : Config S)
    (matches : String → String → Bool) where
  step-AllDrawable :
      (e : Event S) (a : App S)
      → ClosedEvent e
      → AllDrawable a.map.1
      → AllDrawable (step config matches e a).map.1
  unfolding step
  step-AllDrawable e a closed h = elim (Bool-cases (is_topology_event e)) [
    | inl t ↦
        let (data', same) = topology_event e t in
        rw same (update_topology_data-AllDrawable data' a.map (subst ClosedEvent same closed))
    | inr other ↦
        AllDrawable-SameMap a.map.1 (step config matches e a).map.1
          (step-SameMap config matches e a other) h
  ]

  graphics_part-done :
      (now : ℕ) (f : Frame S)
      → AllLinked f.map.1
      → AllDrawable f.map.1
      → (r : Frame S) × (graphics_part config now f ≡ done r)
  unfolding graphics_part
  graphics_part-done now f l d =
      let (m, e) = update_graphics-returns config now (clear_graphics f.map) l d in
      elim (Bool-cases (
        due 10000 f.timers.last_graphics_update now
        || (globals_of f.map).request_graphics_update)) [
          | inl b ↦ rw b (rw e (_, refl))
          | inr b ↦ rw b (f, refl)
        ]

  animation_part-done :
      (now : ℕ) (f : Frame S)
      → AllLinked f.map.1
      → (r : Frame S) × (animation_part config now f ≡ done r)
  unfolding animation_part
  animation_part-done now f l =
      let (m, e) = update_animation-returns config (clear_animation f.map) l in
      elim (Bool-cases (
        due 10000 f.timers.last_animation_update now
        || (globals_of f.map).request_animation_update)) [
          | inl b ↦ rw b (rw e (_, refl))
          | inr b ↦ rw b (f, refl)
        ]

  parts-done :
      (now : ℕ) (f : Frame S)
      → AllLinked f.map.1
      → AllDrawable f.map.1
      → (r : Frame S) × (parts config now f ≡ done r)
  unfolding parts
  parts-done now f l d =
      let (a, e) = graphics_part-done now f l d in
      let same : SameMap f.map.1 (state (graphics_part config now f)).map.1 =
        graphics_part-SameMap config now f in
      let kept : SameMap f.map.1 a.map.1 = rw e at same in
      let (b, g) = animation_part-done now a (AllLinked-SameMap f.map.1 a.map.1 kept l) in
      rw e (rw g (_, refl))

  frame-running :
      (now : ℕ) (a : App S)
      → AllLinked a.map.1
      → AllDrawable a.map.1
      → (frame config now a).running ≡ a.running
  unfolding frame
  frame-running now a l d =
      let (t, started) = start_fetches now (globals_of a.map) a.timers in
      let (f, e) = parts-done now (record { map = a.map; timers = t; ticker_update = false }) l d in
      rw e refl

  step-running :
      (e : Event S) (a : App S)
      → AllLinked a.map.1
      → AllDrawable a.map.1
      → a.running ≡ true
      → (step config matches e a).running ≡ true
  unfolding step
  step-running (tick now) a l d on =
      ap (λ b. (if b then frame config now a else a).running) on ∙ (frame-running now a l d ∙ on)
  step-running e a l d on = on

  run-running :
      (es : List (Event S)) (a : App S)
      → All ClosedEvent es
      → AllLinked a.map.1
      → AllDrawable a.map.1
      → a.running ≡ true
      → (run config matches es a).running ≡ true
  unfolding run
  run-running [] a closed l d on = on
  run-running (e ∷ es) a closed l d on =
      run-running es (step config matches e a) closed.1 (step-AllLinked config matches e a l)
        (step-AllDrawable e a closed.0 d) (step-running e a l d on)

  -- From an empty map and a running loop, as long as every topology that arrives names only devices
  -- of its own, no event stops the main loop, whatever arrives in whatever order.
  pub run-keeps_running :
      (es : List (Event S)) (a : App S)
      → a.map.1 ≡ []
      → a.running ≡ true
      → All ClosedEvent es
      → (run config matches es a).running ≡ true
  run-keeps_running es a e on closed =
      run-running es a closed (AllLinked-empty a.map.1 e) (AllDrawable-empty a.map.1 e) on
