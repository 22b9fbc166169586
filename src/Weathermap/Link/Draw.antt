-- ===== src/Weathermap/Link/Draw.antt =====
-- weathermap/js/link.js: `updateGraphics` and the label under the mouse. A link is drawn as a
-- quadrilateral between two pairs of corners.
use jaspy.Prelude.{
  ℕ, true, false, String, Option, none, some, List, [], ◌∷◌, if◌then◌else◌, str_append, Outcome,
  done, threw,
}
use jaspy.Weathermap.Numbers.{Double, Victor, Screen, Vec, vec, int}
use jaspy.Weathermap.Util.{get_link_color, hostname_from_fqdn}
use jaspy.Weathermap.World.{
  World, Object, Color, PixiCall, viewport, emit, ensure, call, request_graphics,
}
use jaspy.Weathermap.Link.{Link, peer, source, is_up, get_usage, get_utilization}

abbrev pub magenta : Color
magenta = some 0xff00ff

module _ {S : Type 0} ⦃num : Double S⦄ where
  unfoldable pub link_color : ℕ → World S → Link → Color
  link_color now w l =
      if is_up now w l then get_link_color (get_utilization now w l) (int 1) else magenta

  -- A closed outline through four corners.
  abbrev pub outline : Object → Vec S → Vec S → Vec S → Vec S → List (PixiCall S)
  outline o a b c d =
      PixiCall.move_to o a.x a.y
      ∷ PixiCall.line_to o b.x b.y
      ∷ PixiCall.line_to o c.x c.y
      ∷ PixiCall.line_to o d.x d.y
      ∷ PixiCall.line_to o a.x a.y
      ∷ []

  abbrev pub fill : Object → Color → List (PixiCall S) → List (PixiCall S)
  fill o color shape =
      PixiCall.clear o ∷ PixiCall.begin_fill o color ∷ PixiCall.line_style o 0 0x000000 ∷ shape

  unfoldable pub update_graphics :
      ⦃vic : Victor S⦄
      → ℕ
      → Object
      → Vec S
      → Vec S
      → Vec S
      → Vec S
      → World S
      → Link
      → World S × Link
  unfolding link_color
  update_graphics ⦃vic⦄ now layer start end offset1 offset2 w l =
      let (w', g) = ensure layer l.graphics w in
      (
        emit
            (fill g.object (link_color now w l) (
              outline g.object (vic.add start offset1) (vic.add start offset2) (vic.add end offset2)
                (vic.add end offset1)))
            w',
        record l { graphics = some g; dirty = true },
      )

  -- The text of the label; `none` is the TypeError where the peer is not known.
  unfoldable pub label_text : ℕ → World S → Link → Option String
  label_text now w l = elim (peer w l) [
    | none ↦ none
    | some p ↦
        let s = source w l in
        some (
          str_append (hostname_from_fqdn s.parent_device_fqdn) (
            str_append " " (
              str_append s.name (
                str_append " >> " (
                  str_append (hostname_from_fqdn p.parent_device_fqdn) (
                    str_append " " (
                      str_append p.name (
                        str_append "\n"
                          (str_append (num.to_fixed2 (get_usage now w l)) " Mbps")))))))))
  ]

  -- `mouseover` and `mouseout`
  unfoldable pub mouse_over : World S → Link → World S × Link
  mouse_over w l = (call (PixiCall.add_child viewport l.label) w, record l { show_label = true })

  unfoldable pub mouse_out : World S → Link → World S × Link
  mouse_out w l = (
    request_graphics (call (PixiCall.remove_child viewport l.label) w),
    record l { show_label = false },
  )

module _ {S : Type 0} ⦃num : Double S⦄ ⦃screen : Screen S⦄ where
  -- `mousemove`, at a point of the window; the label follows 20 pixels to the right.
  unfoldable pub mouse_move : ℕ → Vec S → World S → Link → Outcome (World S)
  unfolding label_text
  mouse_move now point w l =
      let p = screen.to_world (vec (num.add point.x (int 20)) point.y) in
      let w' = call (PixiCall.set_position l.label p.x p.y) w in
      if l.show_label
      then elim (label_text now w l) [
        | none ↦ threw w'
        | some text ↦ done (request_graphics (call (PixiCall.set_text l.label text) w'))
      ]
      else done w
