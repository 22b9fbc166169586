-- ===== src/Weathermap/LinkGroup/Draw.antt =====
-- weathermap/js/linkgroup.js: `updateGraphics` and the label. The links are strips side by side from
-- the device to the middle of the way, where an arrow head, or a box if no link is up, ends them.
use jaspy.Prelude.{
  ℕ, ◌+◌, Bool, true, false, not, ◌||◌, String, none, some, List, [], ◌∷◌, ◌++◌, Dict, length,
  if◌then◌else◌, ltb, ◌==◌, str_append,
}
use jaspy.Weathermap.Numbers.{Double, Victor, Screen, Vec, vec, int}
use jaspy.Weathermap.Config.{Config, scalar}
use jaspy.Weathermap.Util.{get_link_color, hostname_from_fqdn}
use jaspy.Weathermap.World.{
  World, Object, Color, PixiCall, viewport, emit, ensure, call, request_graphics,
}
use jaspy.Weathermap.Link
use jaspy.Weathermap.Link.{Link}
use jaspy.Weathermap.Link.Draw
use jaspy.Weathermap.Link.Draw.{magenta, outline, fill}
use jaspy.Weathermap.LinkGroup.{LinkGroup, total_speed, total_usage, set_position}

-- The sizes that follow from the speed of the group.
pub record Sizes (S : Type 0) : Type 0 where
  pub width : S
  pub arrow_width : S
  pub arrow_length : S

-- What the loop over the links adds up.
pub record Drawn (S : Type 0) : Type 0 where
  pub world : World S
  pub links : Dict Link
  pub util_total : S
  pub links_up : ℕ

module _ {S : Type 0} ⦃num : Double S⦄ where
  unfoldable pub speed_factor : Config S → S → S
  speed_factor config speed =
      let s = if num.eq speed (int 0) || not (num.truthy speed) then int 1000 else speed in
      num.mul (num.pow (int 2) (num.log10 s)) config.speed_factor_factor

  unfoldable pub sizes : Config S → Bool → S → Sizes S
  sizes config large factor =
      let width = num.mul config.link_group_width factor in
      let arrow_width = num.mul config.arrow_width factor in
      let arrow_length = num.mul config.arrow_length factor in
      if large
      then record { width = width; arrow_width = arrow_width; arrow_length = arrow_length }
      else (let half = num.div width (int 2) in
          record {
            width = half;
            arrow_width = num.div half (int 2);
            arrow_length = num.div arrow_length (int 2);
          })

module _ {S : Type 0} ⦃num : Double S⦄ ⦃vic : Victor S⦄ where
  -- The offsets of the two edges of the strip of link `n`.
  unfoldable pub strip : Vec S → S → S → ℕ → Vec S × Vec S
  strip sides width per_link n =
      let half = num.div width (num.neg (int 2)) in
      let offset1 =
        vic.add (vic.multiply sides (scalar half))
          (vic.multiply sides (scalar (num.mul (int n) per_link))) in
      (offset1, vic.add offset1 (vic.multiply sides (scalar per_link)))

  unfoldable pub draw_links :
      ℕ
      → Object
      → Vec S
      → Vec S
      → (ℕ → Vec S × Vec S)
      → ℕ
      → List (String × Link)
      → Drawn S
      → Drawn S
  draw_links now layer start end strips n [] s = s
  draw_links now layer start end strips n ((key, l) ∷ rest) s =
      let (offset1, offset2) = strips n in
      let (w, l') = Draw.update_graphics now layer start end offset1 offset2 s.world l in
      draw_links now layer start end strips (n + 1) rest (record {
        world = w;
        links = s.links ++ (key, l') ∷ [];
        util_total = num.add s.util_total (Link.get_utilization now w l');
        links_up = if Link.is_up now w l' then s.links_up + 1 else s.links_up;
      })

  -- An arrow head if a link is up, in the colour of the average utilization, and else a box.
  head_calls : Object → Vec S → Vec S → Vec S → Sizes S → ℕ → Color → List (PixiCall S)
  head_calls o position dir sides z links_up color =
      let zero_vec = vec (int 0) (int 0) in
      let back = vic.multiply dir (scalar z.arrow_length) in
      let side = vic.multiply sides (scalar z.arrow_width) in
      let half_back = vic.multiply back (scalar (num.ratio 1 2)) in
      let arrow_left = vic.subtract (vic.subtract zero_vec back) side in
      let arrow_right = vic.add (vic.subtract zero_vec back) side in
      let box_left = vic.subtract (vic.subtract zero_vec side) half_back in
      let box_right = vic.subtract (vic.add zero_vec side) half_back in
      let tip = vic.subtract zero_vec (vic.multiply dir (scalar (int 1))) in
      let arrow =
        PixiCall.move_to o tip.x tip.y
        ∷ PixiCall.line_to o arrow_left.x arrow_left.y
        ∷ PixiCall.line_to o arrow_right.x arrow_right.y
        ∷ PixiCall.line_to o tip.x tip.y
        ∷ [] in
      fill o color
        (if ltb 0 links_up then arrow else outline o box_left arrow_left arrow_right box_right)
      ++ PixiCall.end_fill o ∷ PixiCall.set_position o position.x position.y ∷ []

  group_color : ℕ → S → ℕ → Color
  group_color links_up util_total count =
      if links_up == 0 then magenta else get_link_color (num.div util_total (int count)) (int 1)

  -- Half of the way to the neighbour.
  midpoint : Vec S → Vec S → Vec S
  midpoint local remote =
      vic.multiply (vic.add (vic.multiply local (scalar (num.neg (int 1)))) remote)
        (scalar (num.ratio 1 2))

  -- The part under `if(this.graphicsDirty)`.
  draw_group :
      Config S
      → ℕ
      → Object
      → Object
      → Vec S
      → Vec S
      → Vec S
      → Bool
      → World S
      → LinkGroup S
      → World S × LinkGroup S
  unfolding head_calls group_color strip draw_links sizes speed_factor
  draw_group config now layer o position local dir large w g =
      let sides = vic.rotate_deg dir (int 90) in
      let z = sizes config large (speed_factor config (total_speed now w g)) in
      let back = vic.multiply dir (scalar z.arrow_length) in
      let tip = vic.subtract (vec (int 0) (int 0)) (vic.multiply dir (scalar (int 1))) in
      let end = vic.add (vic.subtract (vic.add position tip) back) dir in
      let count = length g.grouped_links in
      let s =
        draw_links now layer local end (strip sides z.width (num.div z.width (int count))) 0
          g.grouped_links (record { world = w; links = []; util_total = int 0; links_up = 0 }) in
      let color = group_color s.links_up s.util_total count in
      (
        emit (head_calls o position dir sides z s.links_up color) s.world,
        record g { grouped_links = s.links; graphics_dirty = false },
      )

  unfoldable pub update_graphics :
      Config S → ℕ → Object → Vec S → Vec S → Bool → World S → LinkGroup S → World S × LinkGroup S
  unfolding draw_group midpoint
  update_graphics config now layer local remote large w g =
      let (w', info) = ensure layer g.graphics w in
      let middle = midpoint local remote in
      let g' = set_position (vic.add local middle) (record g { graphics = some info }) in
      elim g'.position [
        | none ↦ (w', g')
        | some position ↦
            if g'.graphics_dirty
            then draw_group config now layer info.object position local (vic.normalize middle) large
                w' g'
            else (w', g')
      ]

module _ {S : Type 0} ⦃num : Double S⦄ where
  unfoldable pub label_text : ℕ → World S → LinkGroup S → String
  label_text now w g = str_append (hostname_from_fqdn g.source) (
      str_append " >> " (
        str_append (hostname_from_fqdn g.target)
          (str_append "\n" (str_append (num.to_fixed2 (total_usage now w g)) " Mbps"))))

module _ {S : Type 0} where
  -- `mouseover` and `mouseout`
  unfoldable pub mouse_over : World S → LinkGroup S → World S × LinkGroup S
  mouse_over w g = (call (PixiCall.add_child viewport g.label) w, record g { show_label = true })

  unfoldable pub mouse_out : World S → LinkGroup S → World S × LinkGroup S
  mouse_out w g = (
    request_graphics (call (PixiCall.remove_child viewport g.label) w),
    record g { show_label = false },
  )

module _ {S : Type 0} ⦃num : Double S⦄ ⦃screen : Screen S⦄ where
  -- `mousemove`, at a point of the window; the label follows 20 pixels to the right.
  unfoldable pub mouse_move : ℕ → Vec S → World S → LinkGroup S → World S
  unfolding label_text
  mouse_move now point w g =
      let p = screen.to_world (vec (num.add point.x (int 20)) point.y) in
      if g.show_label
      then request_graphics (
          emit
            (PixiCall.set_position g.label p.x p.y
              ∷ PixiCall.set_text g.label (label_text now w g)
              ∷ [])
            w)
      else w
