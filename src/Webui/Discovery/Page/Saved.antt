-- ===== src/Webui/Discovery/Page/Saved.antt =====
-- What a second save sends.
use jaspy.Prelude.{
  false, some, List, [], ◌∷◌, ◌++◌, ◌≡◌, refl, ap, ◌∙◌, All, arith, Bool-cases, inl, inr,
}
use jaspy.Webui.Platform.{Platform, TrimsSpace}
use jaspy.Webui.Discovery.{DiscoveryConfig, FormState, to_form, from_form}
use jaspy.Webui.Discovery.Settings.{IsHeld, from_form-settings}
use jaspy.Webui.Client.Calls.{put_discovery_config}
use jaspy.Webui.Discovery.Page.{
  Page, Event, config_answer, status_answer, set_field, submit_config, config_saved, config_failed,
  press_run, run_settled, type_fqdn, type_community, submit_device, device_added, device_failed,
  step, run, on_submit_config,
}

-- An event that neither changes the form nor ends a save that succeeds.
abbrev pub Leaves : Event → Type 0
Leaves (set_field change) = ⊥
Leaves (config_saved c) = ⊥
Leaves _ = Unit

module _ (platform : Platform) (form : FormState) where
  abbrev Formed : Page → Type 0
  Formed s = s.form ≡ some form

  step-Formed : (e : Event) (s : Page) → Leaves e → Formed s → Formed (step platform e s)
  unfolding step
  step-Formed (config_answer c) s l h = rw h refl
  step-Formed (status_answer running) s l h = h
  step-Formed (set_field change) s l h = absurd l
  step-Formed submit_config s l h = elim (Bool-cases s.saving) [
    | inl e ↦ rw (on_submit_config, h) (rw e h)
    | inr e ↦ rw (on_submit_config, h) (rw e h)
  ]
  step-Formed (config_saved c) s l h = absurd l
  step-Formed config_failed s l h = h
  step-Formed press_run s l h = ground (arith, h)
  step-Formed run_settled s l h = h
  step-Formed (type_fqdn fqdn) s l h = h
  step-Formed (type_community community) s l h = h
  step-Formed submit_device s l h = ground (arith, h)
  step-Formed device_added s l h = h
  step-Formed device_failed s l h = h

  run-Formed :
      (events : List Event) (s : Page)
      → All Leaves events
      → Formed s
      → Formed (run platform events s)
  unfolding run
  run-Formed [] s ls h = h
  run-Formed (e ∷ events) s ls h =
      run-Formed events (step platform e s) ls.1 (step-Formed e s ls.0 h)

submit_config-call :
    (platform : Platform) (form : FormState) (s : Page)
    → s.form ≡ some form
    → s.saving ≡ false
    → (step platform submit_config s).calls
      ≡ s.calls ++ (put_discovery_config (from_form platform form) ∷ [])
unfolding step on_submit_config
submit_config-call platform form s h idle = rw (on_submit_config, h) (rw idle refl)

-- For such a trim, after a save of settings that the form can hold, and events that neither change
-- the form nor end a save with success, a submit while no save is pending sends the saved settings
-- again.
pub run-saved_again :
    (platform : Platform) (saved : DiscoveryConfig) (events : List Event) (s : Page)
    → TrimsSpace platform
    → IsHeld platform saved
    → All Leaves events
    → (run platform (config_saved saved ∷ events) s).saving ≡ false
    → let before = run platform (config_saved saved ∷ events) s in
      (step platform submit_config before).calls ≡ before.calls ++ (put_discovery_config saved ∷ [])
unfolding run
run-saved_again platform saved events s trims held ls idle =
    let before = run platform (config_saved saved ∷ events) s in
    submit_config-call platform (to_form saved) before
      (run-Formed platform (to_form saved) events _ ls refl) idle
    ∙ ap (λ c. before.calls ++ (put_discovery_config c ∷ []))
        (from_form-settings platform saved trims held)
