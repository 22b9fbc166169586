-- ===== src/Weathermap/Device/Input.antt =====
-- weathermap/js/device.js: the mouse handlers of `armDragEvents`, and the request that stores a
-- position. The handlers hang on the device's graphics object, which they read.
use jaspy.Prelude.{
  Bool, true, false, not, String, none, some, [], ◌∷◌, ◌++◌, Outcome, done, threw, if◌then◌else◌,
  str_append,
}
use jaspy.Weathermap.Numbers.{Double, Screen, Vec, vec, int}
use jaspy.Weathermap.World.{World, request_updates}
use jaspy.Weathermap.Effect.{text_effect, new_text_effect}
use jaspy.Weathermap.Device.{Device, set_position, is_expanded}

pub record Modifiers : Type 0 where
  pub shift_key : Bool
  pub ctrl_key : Bool
  pub alt_key : Bool

abbrev pub bool_text : Bool → String
bool_text true = "true"
bool_text false = "false"

module _ {S : Type 0} where
  abbrev pub freeze : World S → World S
  freeze w = record w { globals = record (w.globals) { position_updates_frozen = true } }

  -- Both outcomes of the request end in this.
  unfoldable pub position_stored : World S → World S
  position_stored w = record w { globals = record (w.globals) { position_updates_frozen = false } }

  unfoldable pub update_position_info : Device S → World S → World S
  update_position_info d w = record w {
    requests =
        record {
          device_fqdn = d.fqdn;
          x = d.position.x;
          y = d.position.y;
          super_node = d.super_node_by_config;
          expanded_by_default = d.expanded_by_default;
        }
        ∷ w.requests;
  }

module _ {S : Type 0} ⦃num : Double S⦄ where
  -- A setting was toggled: say so over the device, stop the server's positions and send ours.
  announce_setting : String → World S → Device S → Outcome (World S × Device S)
  unfolding update_position_info
  announce_setting text w d = elim d.graphics [
    | none ↦ threw (w, d)
    | some g ↦
        let e = text_effect (new_text_effect (vec (int 20) (int 0)) text 0xff00ff g.object 10) in
        done (
          update_position_info d (freeze (request_updates w)),
          record d { attached_effects = d.attached_effects ++ e ∷ [] },
        )
  ]

  -- `mousedown` and `touchstart`
  unfoldable pub press : Modifiers → World S → Device S → Outcome (World S × Device S)
  unfolding announce_setting
  press m w d =
      if m.shift_key
      then done (freeze (request_updates w), record d { drag_info = true })
      else if m.ctrl_key
      then announce_setting
          (str_append "expandedByDefault=" (bool_text (not d.expanded_by_default))) w
          (record d { expanded_by_default = not d.expanded_by_default })
      else if m.alt_key
      then announce_setting
          (str_append "superNodeByConfig=" (bool_text (not d.super_node_by_config))) w
          (record d { super_node_by_config = not d.super_node_by_config })
      else done (request_updates w, record d { expanded = some (not (is_expanded d)) })

  -- `mouseup`, `touchend` and both outside the object
  unfoldable pub release : World S → Device S → World S × Device S
  unfolding update_position_info
  release w d = let d' = record d { drag_info = false } in (update_position_info d' w, d')

  -- `mousemove` and `touchmove`, at a point of the window
  unfoldable pub move : ⦃screen : Screen S⦄ → Vec S → World S → Device S → World S × Device S
  move ⦃screen⦄ point w d =
      if d.drag_info then (request_updates w, set_position (screen.to_world point) d) else (w, d)
