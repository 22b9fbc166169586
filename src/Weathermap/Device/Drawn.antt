-- ===== src/Weathermap/Device/Drawn.antt =====
-- weathermap/js/device.js: when `updateGraphics` returns.
use jaspy.Prelude.{
  ℕ, Bool, true, false, String, Option, none, some, List, [], ◌∷◌, Dict, keys, get, ◌≡◌, refl, ◌↔◌,
  arith, done, All, Option-cases, inl, inr, if◌then◌else◌, done≢threw, ◌∙◌, sym, subst, ap,
}
use jaspy.Weathermap.Numbers.{Double, Victor, Screen}
use jaspy.Weathermap.Config.{Config}
use jaspy.Weathermap.World.{
  World, emit, PixiCall, GraphicsInfo, Object, new_object, new_text, device_layer,
}
use jaspy.Weathermap.LinkGroup.{LinkGroup}
use jaspy.Weathermap.Device.{Device, is_large_icon, is_super_node, is_expanded}
use jaspy.Weathermap.Device.Draw.{
  draw_groups, draw_body, update_graphics, ensure_graphics, name_calls, draw_effects, draw_square,
}
use jaspy.Weathermap.Device.Linked.{IsLinked, Known, has-get, is_large_icon-IsLinked}

module _ {S : Type 0} where
  -- The neighbours of the groups are on the map.
  abbrev pub GroupsKnown : Dict (Device S) → List (String × LinkGroup S) → Type 0
  GroupsKnown devices groups = All (Known devices) (keys groups)

module _ {S : Type 0} ⦃num : Double S⦄ ⦃vic : Victor S⦄ (config : Config S) (now : ℕ)
    (devices : Dict (Device S)) where
  -- Groups that are drawn have their neighbours on the map.
  draw_groups-known :
      (large : Bool) (groups : List (String × LinkGroup S)) (w : World S) (d : Device S)
      (r : World S × Device S)
      → draw_groups config now devices large groups w d ≡ done r
      → GroupsKnown devices groups
  unfolding draw_groups
  draw_groups-known large [] w d r e = tt
  draw_groups-known large ((key, value) ∷ rest) w d r e = elim (Option-cases (get key devices)) [
    | inl gone ↦ absurd (done≢threw (sym (rw (gone, draw_groups) at e)))
    | inr (nbr, found) ↦
        elim (Option-cases (if large then is_large_icon devices nbr else some false)) [
          | inl no_icon ↦ absurd (done≢threw (sym (rw (found, no_icon, draw_groups) at e)))
          | inr (large_link, icon) ↦ (
            rw found refl,
            draw_groups-known large rest _ _ r (rw (found, icon, draw_groups) at e),
          )
        ]
  ]

  draw_groups-done :
      (large : Bool) (groups : List (String × LinkGroup S)) (w : World S) (d : Device S)
      → ((k : String) (e : Device S) → get k devices ≡ some e → IsLinked devices e)
      → GroupsKnown devices groups
      → (r : World S × Device S) × (draw_groups config now devices large groups w d ≡ done r)
  unfolding draw_groups
  draw_groups-done large [] w d all h = ((w, d), refl)
  draw_groups-done large ((key, value) ∷ rest) w d all h =
      let (nbr, found) = has-get key devices h.0 in
      elim (Option-cases (if large then is_large_icon devices nbr else some false)) [
        | inl no_icon ↦ absurd (icon_size large nbr (all key nbr found) no_icon)
        | inr (large_link, icon) ↦
            rw (found, icon, draw_groups) (draw_groups-done large rest _ _ all h.1)
      ]
    where
      icon_size :
          (large : Bool) (nbr : Device S)
          → IsLinked devices nbr
          → (if large then is_large_icon devices nbr else some false) ≡ none
          → ⊥
      icon_size true nbr l e = is_large_icon-IsLinked devices nbr l e
      icon_size false nbr l e = ground arith

module _ {S : Type 0} ⦃num : Double S⦄ ⦃vic : Victor S⦄ ⦃screen : Screen S⦄ (config : Config S)
    (now : ℕ) (devices : Dict (Device S)) where
  -- What drawing leaves of a device: all that the tests of `updateGraphics` read.
  abbrev SameTests : Device S → Device S → Type 0
  SameTests d e =
      (e.link_groups ≡ d.link_groups)
      × ((is_large_icon devices e ≡ is_large_icon devices d)
          × (IsLinked devices d → IsLinked devices e))

  is_large_icon-graphics :
      (d : Device S) (g : Option GraphicsInfo) (t : Object)
      → is_large_icon devices (record d { graphics = g; text = t }) ≡ is_large_icon devices d
  unfolding is_large_icon is_super_node is_expanded
  is_large_icon-graphics d g t = refl

  -- The device that `ensureGraphics` leaves differs in its objects only.
  ensure_graphics-shape :
      (w : World S) (d : Device S)
      → (g : Option GraphicsInfo) × ((t : Object) × ((ensure_graphics config w d).1
            ≡ record d { graphics = g; text = t }))
  unfolding ensure_graphics
  ensure_graphics-shape w d = go d.graphics refl
    where
      go :
          (o : Option GraphicsInfo)
          → d.graphics ≡ o
          → (g : Option GraphicsInfo) × ((t : Object) × ((ensure_graphics config w d).1
                ≡ record d { graphics = g; text = t }))
      go none e =
          let (w', g) = new_object device_layer w in
          (some g, ((new_text d.hostname w').1, simp (e, ensure_graphics)))
      go (some x) e =
          (some x, (d.text, simp (e, ensure_graphics) (ap (λ o. record d { graphics = o }) e)))

  ensure_graphics-SameTests :
      (w : World S) (d : Device S) → SameTests d (ensure_graphics config w d).1
  ensure_graphics-SameTests w d =
      let (g, (t, e)) = ensure_graphics-shape w d in
      subst (SameTests d) (sym e)
        (refl, (is_large_icon-graphics d g t, λ l. record { known = l.known; super = l.super }))

  draw_square-groups :
      (large : Bool) (w : World S) (d : Device S)
      → (draw_square config large w d).1.link_groups ≡ d.link_groups
  unfolding draw_square
  draw_square-groups large w d = ground arith

  name_calls-some :
      (large : Bool) (d : Device S)
      → is_large_icon devices d ≡ some large
      → IsLinked devices d
      → (calls : List (PixiCall S)) × (name_calls config devices large d ≡ some calls)
  unfolding name_calls is_large_icon
  name_calls-some large d icon l = elim (Option-cases (name_calls config devices large d)) [
    | inl e ↦ absurd (ground arith)
    | inr p ↦ p
  ]

  -- After the first part, drawing goes on with a name to place.
  draw_rest-done :
      (large : Bool) (w : World S) (d : Device S)
      → ((k : String) (e : Device S) → get k devices ≡ some e → IsLinked devices e)
      → GroupsKnown devices d.link_groups
      → (calls : List (PixiCall S))
      → (r : World S × Device S) × (draw_body config now devices large calls w d ≡ done r)
  unfolding draw_body
  draw_rest-done large w d all h calls =
      let (w', effects) = draw_effects d.attached_effects (emit calls w) in
      let shown = record d { attached_effects = effects } in
      let (w'', d') = draw_square config large w' shown in
      draw_groups-done config now devices large d'.link_groups w'' d' all
        (subst (GroupsKnown devices) (sym (draw_square-groups large w' shown)) h)

  draw_body-known :
      (large : Bool) (w : World S) (d : Device S) (calls : List (PixiCall S))
      (r : World S × Device S)
      → draw_body config now devices large calls w d ≡ done r
      → GroupsKnown devices d.link_groups
  unfolding draw_body
  draw_body-known large w d calls r e =
      let (w', effects) = draw_effects d.attached_effects (emit calls w) in
      let shown = record d { attached_effects = effects } in
      let (w'', d') = draw_square config large w' shown in
      subst (GroupsKnown devices) (draw_square-groups large w' shown)
        (draw_groups-known config now devices large d'.link_groups w'' d' r e)

  -- Among linked devices, drawing a linked device returns exactly when the neighbours of all its
  -- link groups are on the map.
  pub update_graphics-returns_iff :
      (w : World S) (d : Device S)
      → ((k : String) (e : Device S) → get k devices ≡ some e → IsLinked devices e)
      → IsLinked devices d
      → ((r : World S × Device S) × (update_graphics config now devices w d ≡ done r))
        ↔ GroupsKnown devices d.link_groups
  unfolding update_graphics
  update_graphics-returns_iff w d all l = elim (Option-cases (is_large_icon devices d)) [
    | inl e ↦ absurd (is_large_icon-IsLinked devices d l e)
    | inr (large, icon) ↦
        let (w', d') = ensure_graphics config w d in
        let same = ensure_graphics-SameTests w d in
        let (calls, named) = name_calls-some large d' (same.1.0 ∙ icon) (same.1.1 l) in
        (
          λ done_at. subst (GroupsKnown devices) same.0 (
              draw_body-known large w' d' calls done_at.0
                (rw (icon, named, update_graphics) at done_at.1)),
          λ h.
              rw (icon, named, update_graphics)
                (draw_rest-done large w' d' all (subst (GroupsKnown devices) (sym same.0) h) calls),
        )
  ]
