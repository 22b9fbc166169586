-- ===== src/Weathermap/Device/Keeps.antt =====
-- weathermap/js/device.js: the links of a device under the methods other than the topology's.
use jaspy.Prelude.{
  ℕ, Bool, true, false, String, Option, some, List, [], ◌∷◌, Dict, ◌≡◌, refl, ◌∙◌, arith, Outcome,
  done, threw, ◌>>=◌, state, get, put, keys, keys-map_values, keys-put_old, has, All, All-keys,
  All-map, has-put, Option-cases, inl, inr, if◌then◌else◌,
}
use jaspy.Weathermap.Numbers.{Double, Victor, Screen, Vec}
use jaspy.Weathermap.Config.{Config}
use jaspy.Weathermap.Interface.{Stats}
use jaspy.Weathermap.World.{World, PixiCall, emit}
use jaspy.Weathermap.LinkGroup
use jaspy.Weathermap.LinkGroup.{LinkGroup}
use jaspy.Weathermap.Device.{
  Device, set_position, check_stale, interface_update_event, is_large_icon,
}
use jaspy.Weathermap.Device.Linked.{SameLinks}
use jaspy.Weathermap.Device.Status.{
  DeviceStatus, PositionData, highlight, change_status, set_status, update_statistics,
  update_weathermap_position,
}
use jaspy.Weathermap.Device.Input.{Modifiers, press, release, move}
use jaspy.Weathermap.Device.Animation.{update_animation}
use jaspy.Weathermap.Device.Draw.{
  update_graphics, draw_groups, draw_body, draw_square, draw_effects, ensure_graphics, name_calls,
}

module _ {S : Type 0} where
  pub SameLinks-refl : (d : Device S) → SameLinks d d
  SameLinks-refl d = record { fqdn = refl; neighbors = refl; super = refl; groups = refl }

  pub SameLinks-trans : {d e f : Device S} → SameLinks d e → SameLinks e f → SameLinks d f
  SameLinks-trans p q = record {
    fqdn = q.fqdn ∙ p.fqdn;
    neighbors = q.neighbors ∙ p.neighbors;
    super = q.super ∙ p.super;
    groups = q.groups ∙ p.groups;
  }

  >>=-SameLinks :
      (d : Device S) (o : Outcome (World S × Device S))
      (f : World S × Device S → Outcome (World S × Device S))
      → SameLinks d (state o).1
      → ((r : World S × Device S) → SameLinks r.1 (state (f r)).1)
      → SameLinks d (state (o >>= f)).1
  >>=-SameLinks d (done r) f h keep = SameLinks-trans h (keep r)
  >>=-SameLinks d (threw r) f h keep = h

  pub interface_update_event-SameLinks : (d : Device S) → SameLinks d (interface_update_event d)
  unfolding interface_update_event
  interface_update_event-SameLinks d = record {
    fqdn = refl;
    neighbors = refl;
    super = refl;
    groups = keys-map_values LinkGroup.interfaces_updated d.link_groups;
  }

  pub check_stale-SameLinks : (now : ℕ) (d : Device S) → SameLinks d (check_stale now d)
  unfolding check_stale
  check_stale-SameLinks now d = ground arith

  pub update_statistics-SameLinks :
      (now : ℕ) (data' : Dict (Stats S)) (w : World S) (d : Device S)
      → SameLinks d (state (update_statistics now data' w d)).1
  unfolding update_statistics
  update_statistics-SameLinks now data' w d = ground (arith, interface_update_event-SameLinks d)

module _ {S : Type 0} ⦃num : Double S⦄ where
  pub highlight-SameLinks : (w : World S) (d : Device S) → SameLinks d (state (highlight w d)).1
  unfolding highlight
  highlight-SameLinks w d = ground arith

  change_status-SameLinks :
      (new : Option Bool) (w : World S) (d : Device S)
      → SameLinks d (state (change_status new w d)).1
  unfolding change_status
  change_status-SameLinks new w d = ground arith

  pub set_status-SameLinks :
      (now : ℕ) (new : DeviceStatus) (w : World S) (d : Device S)
      → SameLinks d (state (set_status now new w d)).1
  unfolding set_status
  set_status-SameLinks now new w d =
      let seen : Device S = record d { last_update = now } in
      SameLinks-trans {e = seen}
        (record { fqdn = refl; neighbors = refl; super = refl; groups = refl })
        (>>=-SameLinks seen (change_status new.state w seen) _
          (change_status-SameLinks new.state w seen) (λ r. interface_update_event-SameLinks r.1))

  set_position-SameLinks : (p : Vec S) (d : Device S) → SameLinks d (set_position p d)
  unfolding set_position
  set_position-SameLinks p d = ground arith

  pub update_weathermap_position-SameLinks :
      (data' : PositionData S) (w : World S) (d : Device S)
      → SameLinks d (update_weathermap_position data' w d).1
  unfolding update_weathermap_position
  update_weathermap_position-SameLinks data' w d = ground arith

  pub press-SameLinks :
      (m : Modifiers) (w : World S) (d : Device S) → SameLinks d (state (press m w d)).1
  unfolding press
  press-SameLinks m w d = ground arith

  pub release-SameLinks : (w : World S) (d : Device S) → SameLinks d (release w d).1
  unfolding release
  release-SameLinks w d = ground arith

  pub move-SameLinks :
      ⦃screen : Screen S⦄ → (p : Vec S) (w : World S) (d : Device S) → SameLinks d (move p w d).1
  unfolding move set_position
  move-SameLinks p w d = ground arith

module _ {S : Type 0} ⦃num : Double S⦄ ⦃vic : Victor S⦄ where
  pub update_animation-SameLinks :
      (config : Config S) (devices : Dict (Device S)) (w : World S) (d : Device S)
      → SameLinks d (state (update_animation config devices w d)).1
  unfolding update_animation set_position
  update_animation-SameLinks config devices w d = ground arith

  stay :
      (key : String) (g : LinkGroup S) (groups : Dict (LinkGroup S))
      → has key groups ≡ true
      → (k : String) → has k groups ≡ true
      → has k (put key g groups) ≡ true
  stay key g groups h k e = ground (arith, has-put key k g groups)

  draw_groups-SameLinks :
      (config : Config S) (now : ℕ) (devices : Dict (Device S)) (large : Bool)
      (groups : List (String × LinkGroup S)) (w : World S) (d : Device S)
      → All (λ k. has k d.link_groups ≡ true) (keys groups)
      → SameLinks d (state (draw_groups config now devices large groups w d)).1
  unfolding draw_groups
  draw_groups-SameLinks config now devices large [] w d h = SameLinks-refl d
  draw_groups-SameLinks config now devices large ((key, value) ∷ rest) w d h =
      elim (Option-cases (get key devices)) [
        | inl e ↦ rw (e, draw_groups) (SameLinks-refl d)
        | inr (nbr, e) ↦
            elim (Option-cases (if large then is_large_icon devices nbr else some false)) [
              | inl f ↦ rw (e, draw_groups) (rw f (SameLinks-refl d))
              | inr (large_link, f) ↦
                  rw (e, draw_groups)
                    (rw f (
                      SameLinks-trans
                        (record {
                          fqdn = refl;
                          neighbors = refl;
                          super = refl;
                          groups = keys-put_old key _ d.link_groups h.0;
                        })
                        (draw_groups-SameLinks config now devices large rest _ _
                          (All-map _ _ (λ k. stay key _ d.link_groups h.0 k) (keys rest) h.1))))
            ]
      ]

  draw_square-SameLinks :
      (config : Config S) (large : Bool) (w : World S) (d : Device S)
      → SameLinks d (draw_square config large w d).1
  unfolding draw_square
  draw_square-SameLinks config large w d = ground arith

  module _ ⦃screen : Screen S⦄ where
    ensure_graphics-SameLinks :
        (config : Config S) (w : World S) (d : Device S)
        → SameLinks d (ensure_graphics config w d).1
    unfolding ensure_graphics
    ensure_graphics-SameLinks config w d = ground arith

    draw_body-SameLinks :
        (config : Config S) (now : ℕ) (devices : Dict (Device S)) (large : Bool)
        (name : List (PixiCall S)) (w : World S) (d : Device S)
        → SameLinks d (state (draw_body config now devices large name w d)).1
    unfolding draw_body
    draw_body-SameLinks config now devices large name w d =
        let (w', effects) = draw_effects d.attached_effects (emit name w) in
        let d' : Device S = record d { attached_effects = effects } in
        let (w'', d'') = draw_square config large w' d' in
        let same : SameLinks d d' = record {
          fqdn = refl;
          neighbors = refl;
          super = refl;
          groups = refl;
        } in
        SameLinks-trans {e = d''}
          (SameLinks-trans {e = d'} same (draw_square-SameLinks config large w' d'))
          (draw_groups-SameLinks config now devices large d''.link_groups w'' d''
            (All-keys _ d''.link_groups (λ j e. e)))

    pub update_graphics-SameLinks :
        (config : Config S) (now : ℕ) (devices : Dict (Device S)) (w : World S) (d : Device S)
        → SameLinks d (state (update_graphics config now devices w d)).1
    unfolding update_graphics
    update_graphics-SameLinks config now devices w d =
        elim (Option-cases (is_large_icon devices d)) [
          | inl e ↦ rw (e, update_graphics) (SameLinks-refl d)
          | inr (large, e) ↦
              let made = ensure_graphics-SameLinks config w d in
              let (w', d') = ensure_graphics config w d in
              elim (Option-cases (name_calls config devices large d')) [
                | inl f ↦ rw (e, update_graphics) (rw f made)
                | inr (name, f) ↦
                    rw (e, update_graphics)
                      (rw f (
                        SameLinks-trans made
                          (draw_body-SameLinks config now devices large name w' d')))
              ]
        ]
