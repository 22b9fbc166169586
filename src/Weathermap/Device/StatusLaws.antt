-- ===== src/Weathermap/Device/StatusLaws.antt =====
-- weathermap/js/device.js: status reports, statistics, positions and the clock.
use jaspy.Prelude.{
  ℕ, ◌+◌, ◌<◌, Bool, true, false, ◌||◌, String, none, List, [], ◌∷◌, Dict, get, has, keys, ◌≡◌, ◌≢◌,
  ◌↔◌, refl, arith, done, All, Option-cases, inl, inr, done≢threw, sym, ◌∙◌, Outcome-cases,
  has_thrown,
}
use jaspy.Weathermap.Numbers.{Double, vec, same_place, round_vec}
use jaspy.Weathermap.Interface
use jaspy.Weathermap.Interface.{Ref, Stats}
use jaspy.Weathermap.World.{World, modify}
use jaspy.Weathermap.Device.{Device, check_stale, interface_update_event}
use jaspy.Weathermap.Device.Status.{
  DeviceStatus, same_status, set_status, change_status, set_interface_statistics, update_statistics,
  PositionData, differ, request_position, update_weathermap_position,
}

module _ {S : Type 0} where
  -- The loop over the statistics.
  statistics-done_iff :
      (now : ℕ) (interfaces : Dict Ref) (entries : List (String × Stats S)) (w : World S)
      → ((w' : World S) × (set_interface_statistics now interfaces entries w ≡ done w'))
        ↔ All (λ k. has k interfaces ≡ true) (keys entries)
  unfolding set_interface_statistics
  statistics-done_iff now interfaces [] w = (λ p. tt, λ h. (w, refl))
  statistics-done_iff now interfaces ((key, value) ∷ rest) w =
      elim (Option-cases (get key interfaces)) [
        | inl e ↦ (
          λ p. absurd (done≢threw (sym (rw (e, set_interface_statistics) at p.1))),
          λ h. absurd (ground (arith, h.0, e)),
        )
        | inr (r, e) ↦
            let ih =
              statistics-done_iff now interfaces rest
                (modify r (Interface.update_statistics now value) w) in
            (
              λ p. (rw e refl, ih.0 (p.0, rw (e, set_interface_statistics) at p.1)),
              λ h. rw (e, set_interface_statistics) (ih.1 h.1),
            )
      ]

  -- UpdateStatistics returns exactly when every interface that the statistics name is one of the
  -- device's.
  pub update_statistics-returns_iff :
      (now : ℕ) (data' : Dict (Stats S)) (w : World S) (d : Device S)
      → ((r : World S × Device S) × (update_statistics now data' w d ≡ done r))
        ↔ All (λ k. has k d.interfaces ≡ true) (keys data')
  unfolding update_statistics
  update_statistics-returns_iff now data' w d =
      let all = statistics-done_iff now d.interfaces data' w in
      elim (Outcome-cases (set_interface_statistics now d.interfaces data' w)) [
        | inl (w', e) ↦ (λ p. all.0 (w', e), λ h. rw (e, update_statistics) (_, refl))
        | inr (w', e) ↦ (
          λ p. absurd (done≢threw (sym (rw (e, update_statistics) at p.1))),
          λ h. absurd (done≢threw (sym (all.1 h).1 ∙ e)),
        )
      ]

  -- After a look at the clock a device is stale exactly when its last status is more than a minute
  -- old.
  pub check_stale_iff :
      (now : ℕ) (d : Device S) → ((check_stale now d).stale ≡ true) ↔ (d.last_update + 60000 < now)
  unfolding check_stale
  check_stale_iff now d = ground arith

differ_self : (b : Bool) → differ b b ≡ false
differ_self true = refl
differ_self false = refl

module _ {S : Type 0} ⦃num : Double S⦄ where
  -- A status report throws exactly when it changes a known status of a device that has not been
  -- drawn yet.
  pub set_status_iff :
      (now : ℕ) (new : DeviceStatus) (w : World S) (d : Device S)
      → (has_thrown (set_status now new w d) ≡ true)
        ↔ ((d.status ≢ none) × ((same_status d.status new.state ≡ false) × (d.graphics ≡ none)))
  unfolding set_status change_status
  set_status_iff now new w d = ground arith

  -- A status report that returns leaves the device with the reported status, seen now, and to be
  -- drawn again if the status changed.
  pub set_status-status :
      (now : ℕ) (new : DeviceStatus) (w : World S) (d : Device S) (r : World S × Device S)
      → set_status now new w d ≡ done r
      → (r.1.status ≡ new.state)
        × ((r.1.last_update ≡ now)
            × ((same_status d.status new.state || r.1.graphics_dirty) ≡ true))
  unfolding set_status change_status interface_update_event
  set_status-status now new w d r e = ground arith

  -- A position of the server that says what the device has already, up to rounding, changes nothing
  -- and asks for nothing.
  pub update_weathermap_position-same :
      (data' : PositionData S) (w : World S) (d : Device S)
      → same_place (round_vec (vec data'.x data'.y)) d.position ≡ true
      → d.expanded_by_default ≡ data'.expanded_by_default
      → d.super_node_by_config ≡ data'.super_node
      → update_weathermap_position data' w d ≡ (w, d)
  unfolding update_weathermap_position request_position
  update_weathermap_position-same data' w d there expanded super =
      rw (there, sym expanded, sym super)
        (rw (differ_self d.expanded_by_default, differ_self d.super_node_by_config) refl)
