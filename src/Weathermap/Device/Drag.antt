-- ===== src/Weathermap/Device/Drag.antt =====
-- weathermap/js/device.js: a drag of a device, from the press with the shift key to the release.
use jaspy.Prelude.{
  true, false, List, [], ◌∷◌, ◌≡◌, refl, ◌∙◌, ap, arith, Outcome, done, ◌>>=◌, if◌then◌else◌,
}
use jaspy.Weathermap.Numbers.{Double, Screen, Vec, same_place}
use jaspy.Weathermap.World.{World, request_updates}
use jaspy.Weathermap.Device.{Device, set_position}
use jaspy.Weathermap.Device.Input
use jaspy.Weathermap.Device.Input.{Modifiers, press, release, move, update_position_info}

module _ {S : Type 0} ⦃num : Double S⦄ ⦃screen : Screen S⦄ where
  unfoldable pub moves : List (Vec S) → World S × Device S → World S × Device S
  moves [] s = s
  moves (p ∷ ps) s = moves ps (move p s.0 s.1)

  -- The events of a drag over some points of the window.
  unfoldable pub drag : Modifiers → List (Vec S) → World S → Device S → Outcome (World S × Device S)
  drag m points w d = do s ← press m w d; let (w', d') = moves points s in done (release w' d')

  -- Where a device is after a drag from a place: at the last point, and a point with equal
  -- coordinates changes nothing.
  unfoldable pub dragged : List (Vec S) → Vec S → Vec S
  dragged [] p = p
  dragged (q ∷ qs) p =
      dragged qs (if same_place (screen.to_world q) p then p else screen.to_world q)

  -- What the pointer's moves keep, and where they take the device.
  record Moved (points : List (Vec S)) (a b : World S × Device S) : Type 0 where
    position : b.1.position ≡ dragged points a.1.position
    dragging : b.1.drag_info ≡ true
    fqdn : b.1.fqdn ≡ a.1.fqdn
    super_node : b.1.super_node_by_config ≡ a.1.super_node_by_config
    expanded : b.1.expanded_by_default ≡ a.1.expanded_by_default
    requests : b.0.requests ≡ a.0.requests
    frozen : b.0.globals.position_updates_frozen ≡ a.0.globals.position_updates_frozen

  move-Moved :
      (p : Vec S) (w : World S) (d : Device S)
      → d.drag_info ≡ true
      → Moved (p ∷ []) (w, d) (move p w d)
  unfolding move set_position request_updates dragged
  move-Moved p w d on = ground arith

  moves-Moved :
      (points : List (Vec S)) (s : World S × Device S)
      → s.1.drag_info ≡ true
      → Moved points s (moves points s)
  unfolding moves dragged
  moves-Moved [] s on = record {
    position = refl;
    dragging = on;
    fqdn = refl;
    super_node = refl;
    expanded = refl;
    requests = refl;
    frozen = refl;
  }
  moves-Moved (p ∷ ps) s on =
      let one = move-Moved p s.0 s.1 on in
      let rest = moves-Moved ps (move p s.0 s.1) one.dragging in
      record {
        position = rest.position ∙ ap (dragged ps) one.position;
        dragging = rest.dragging;
        fqdn = rest.fqdn ∙ one.fqdn;
        super_node = rest.super_node ∙ one.super_node;
        expanded = rest.expanded ∙ one.expanded;
        requests = rest.requests ∙ one.requests;
        frozen = rest.frozen ∙ one.frozen;
      }

  -- A drag with the shift key does not throw and sends one request, with the place where the drag
  -- ends and the settings of the device; the drag is over, and the server's positions are frozen.
  pub drag-request :
      (m : Modifiers) (points : List (Vec S)) (w : World S) (d : Device S)
      → m.shift_key ≡ true
      → (r : World S × Device S) × ((drag m points w d ≡ done r)
          × ((r.0.requests
                ≡ record {
                  device_fqdn = d.fqdn;
                  x = (dragged points d.position).x;
                  y = (dragged points d.position).y;
                  super_node = d.super_node_by_config;
                  expanded_by_default = d.expanded_by_default;
                }
                  ∷ w.requests)
              × ((r.1.position ≡ dragged points d.position)
                  × ((r.1.drag_info ≡ false) × (r.0.globals.position_updates_frozen ≡ true)))))
  unfolding drag press release update_position_info request_updates
  drag-request m points w d shift =
      let start : World S × Device S =
        (Input.freeze (request_updates w), record d { drag_info = true }) in
      let l = moves-Moved points start refl in
      let s = moves points start in
      (
        release s.0 s.1,
        (
          rw shift refl,
          (
            simp (l.fqdn, l.position, l.super_node, l.expanded, l.requests),
            (l.position, (refl, l.frozen)),
          ),
        ),
      )
