-- ===== src/Weathermap/DeviceGraph/Drawable.antt =====
-- weathermap/js/devicegraph.js: when `updateGraphics` returns.
use jaspy.Prelude.{
  ℕ, String, some, List, [], ◌∷◌, Dict, get, keys, ◌≡◌, refl, ◌∙◌, sym, subst, All, All-map,
  Option-cases, inl, inr, done,
}
use jaspy.Weathermap.Numbers.{Double, Victor, Screen}
use jaspy.Weathermap.Config.{Config}
use jaspy.Weathermap.Device.{Device}
use jaspy.Weathermap.Device.Draw
use jaspy.Weathermap.Device.Drawn.{GroupsKnown, update_graphics-returns_iff}
use jaspy.Weathermap.Device.Keeps.{update_graphics-SameLinks}
use jaspy.Weathermap.Device.Linked.{Known}
use jaspy.Weathermap.DeviceGraph.{Map, with_device, each_device, update_graphics}
use jaspy.Weathermap.DeviceGraph.Linked.{AllLinked}
use jaspy.Weathermap.DeviceGraph.Keeps.{SameMap, AllLinked-SameMap, with_device-SameMap}

module _ {S : Type 0} where
  -- The neighbours of every link group of every device are on the map.
  abbrev pub AllDrawable : Dict (Device S) → Type 0
  AllDrawable devices =
      (k : String) (d : Device S) → get k devices ≡ some d → GroupsKnown devices d.link_groups

  pub AllDrawable-empty : (devices : Dict (Device S)) → devices ≡ [] → AllDrawable devices
  unfolding get
  AllDrawable-empty devices e = subst AllDrawable (sym e) (λ k d f. cc)

  pub AllDrawable-SameMap : (a b : Dict (Device S)) → SameMap a b → AllDrawable a → AllDrawable b
  AllDrawable-SameMap a b s h k e f =
      let (d, (g, same)) = s.links k e f in
      subst (All (Known b)) (sym same.groups)
        (All-map (Known a) (Known b) (λ j known. s.names j ∙ known) (keys d.link_groups) (h k d g))

module _ {S : Type 0} ⦃num : Double S⦄ ⦃vic : Victor S⦄ ⦃screen : Screen S⦄ (config : Config S)
    (now : ℕ) where
  draw_one-done :
      (key : String) (m : Map S)
      → AllLinked m.1
      → AllDrawable m.1
      → (r : Map S) × (with_device key (Draw.update_graphics config now m.1) m ≡ done r)
  unfolding with_device
  draw_one-done key (w, devices) h drawable = elim (Option-cases (get key devices)) [
    | inl e ↦ rw (e, with_device) ((w, devices), refl)
    | inr (d, e) ↦
        let (r, f) =
          (update_graphics-returns_iff config now devices w d h (h key d e)).1 (drawable key d e) in
        rw (e, with_device) (rw f (_, refl))
  ]

  draw_each-done :
      (ks : List String) (m : Map S)
      → AllLinked m.1
      → AllDrawable m.1
      → (r : Map S) × (each_device (Draw.update_graphics config now) ks m ≡ done r)
  unfolding each_device
  draw_each-done [] m h drawable = (m, refl)
  draw_each-done (key ∷ rest) m h drawable =
      let (r, e) = draw_one-done key m h drawable in
      let kept : SameMap m.1 r.1 = rw e at (
        with_device-SameMap key (Draw.update_graphics config now m.1)
          (update_graphics-SameLinks config now m.1) m) in
      rw e (
        draw_each-done rest r (AllLinked-SameMap m.1 r.1 kept h)
          (AllDrawable-SameMap m.1 r.1 kept drawable))

  -- Where all devices are linked and drawable, drawing the map returns.
  pub update_graphics-returns :
      (m : Map S)
      → AllLinked m.1
      → AllDrawable m.1
      → (r : Map S) × (update_graphics config now m ≡ done r)
  unfolding update_graphics
  update_graphics-returns m h drawable = draw_each-done (keys m.1) m h drawable
