-- ===== src/Weathermap/Device/Status.antt =====
-- weathermap/js/device.js: `setStatus`, `updateStatistics`, `highlight` and the positions that the
-- server sends.
use jaspy.Prelude.{
  ℕ, Bool, true, false, not, String, Option, none, some, List, [], ◌∷◌, ◌++◌, Dict, get,
  if◌then◌else◌, ltb, Outcome, done, threw, ◌>>=◌, ◌||◌,
}
use jaspy.Weathermap.Numbers.{Double, Vec, vec, int, same_place, round_vec}
use jaspy.Weathermap.Interface
use jaspy.Weathermap.Interface.{Ref, Stats}
use jaspy.Weathermap.World.{World, Globals, modify, request_updates, request_graphics}
use jaspy.Weathermap.Effect.{focus_effect, new_focus}
use jaspy.Weathermap.Device.{Device, interface_update_event}

pub record DeviceStatus : Type 0 where
  pub state : Option Bool
  pub interfaces : Dict (Option Bool)

abbrev pub same_status : Option Bool → Option Bool → Bool
same_status none none = true
same_status (some true) (some true) = true
same_status (some false) (some false) = true
same_status _ _ = false

-- The longer side of the screen.
abbrev pub screen_radius : Globals → ℕ
screen_radius g = if ltb g.screen_width g.screen_height then g.screen_height else g.screen_width

abbrev pub red : ℕ
red = 0xff0000

abbrev pub green : ℕ
green = 0x00ff00

module _ {S : Type 0} where
  -- The loop over the interfaces of a status; a name that the device does not have is reported on
  -- the console.
  unfoldable pub set_interface_statuses :
      ℕ → Dict Ref → List (String × Option Bool) → World S → World S
  set_interface_statuses now interfaces [] w = w
  set_interface_statuses now interfaces ((key, value) ∷ rest) w =
      set_interface_statuses now interfaces rest (elim (get key interfaces) [
        | none ↦ w
        | some r ↦ modify r (Interface.set_status now value) w
      ])

  -- The same loop over statistics: the report of a missing name reads the variable `fqdn`, which
  -- is not declared, and so throws a ReferenceError.
  unfoldable pub set_interface_statistics :
      ℕ → Dict Ref → List (String × Stats S) → World S → Outcome (World S)
  set_interface_statistics now interfaces [] w = done w
  set_interface_statistics now interfaces ((key, value) ∷ rest) w = elim (get key interfaces) [
    | none ↦ threw w
    | some r ↦
        set_interface_statistics now interfaces rest
          (modify r (Interface.update_statistics now value) w)
  ]

  unfoldable pub update_statistics :
      ℕ → Dict (Stats S) → World S → Device S → Outcome (World S × Device S)
  update_statistics now data' w d = elim (set_interface_statistics now d.interfaces data' w) [
    | threw w' ↦ threw (w', d)
    | done w' ↦ done (request_graphics w', interface_update_event d)
  ]

module _ {S : Type 0} ⦃num : Double S⦄ where
  -- A new circle over the device; without graphics the argument throws a TypeError.
  unfoldable pub push_focus : ℕ → World S → Device S → Outcome (World S × Device S)
  push_focus color w d = elim d.graphics [
    | none ↦ threw (w, d)
    | some g ↦
        let e = focus_effect (new_focus (int (screen_radius w.globals)) color g.object) in
        done (request_updates w, record d { attached_effects = d.attached_effects ++ e ∷ [] })
  ]

  unfoldable pub highlight : World S → Device S → Outcome (World S × Device S)
  unfolding push_focus
  highlight w d = push_focus 0x00aaff w d

  -- A change from a known status is shown by a circle.
  announce : Option Bool → World S → Device S → Outcome (World S × Device S)
  unfolding push_focus
  announce new w d = elim d.status [
    | none ↦ done (w, d)
    | some _ ↦ push_focus (if same_status new (some true) then green else red) w d
  ]

  unfoldable pub change_status : Option Bool → World S → Device S → Outcome (World S × Device S)
  unfolding announce
  change_status new w d = if same_status d.status new then done (w, d) else (do
    (w', d') ← announce new w d
    done (w', record d' { status = new; graphics_dirty = true }))

  unfoldable pub set_status : ℕ → DeviceStatus → World S → Device S → Outcome (World S × Device S)
  unfolding change_status
  set_status now new w d = do
    (w', d') ← change_status new.state w (record d { last_update = now })
    done (
      request_graphics (set_interface_statuses now d'.interfaces new.interfaces w'),
      interface_update_event d',
    )

  -- `requestPosition`: the position is reached by animation.
  unfoldable pub request_position : Vec S → World S → Device S → World S × Device S
  request_position p w d =
      let p' = round_vec p in
      if same_place p' d.position
      then (w, d)
      else (request_updates w, record d { requested_position = some p' })

-- The server's record of a position.
pub record PositionData (S : Type 0) : Type 0 where
  pub x : S
  pub y : S
  pub super_node : Bool
  pub expanded_by_default : Bool

abbrev pub differ : Bool → Bool → Bool
differ true b = not b
differ false b = b

module _ {S : Type 0} ⦃num : Double S⦄ where
  unfoldable pub update_weathermap_position :
      PositionData S → World S → Device S → World S × Device S
  unfolding request_position
  update_weathermap_position data' w d =
      let (w', d') = request_position (vec data'.x data'.y) w d in
      let changed =
        differ d'.expanded_by_default data'.expanded_by_default
        || differ d'.super_node_by_config data'.super_node in
      (
        if changed then request_updates w' else w',
        record d' {
          expanded_by_default = data'.expanded_by_default;
          super_node_by_config = data'.super_node;
        },
      )
