-- ===== src/Webui/Discovery/Page.antt =====
-- nexus/webui/src/pages/Discovery.tsx: the page as steps: the form of the settings, the form that adds
-- a device, and the run.
use jaspy.Prelude.{
  ℕ, suc, Bool, true, false, not, ◌&&◌, ◌||◌, String, Option, none, some, List, [], ◌∷◌, ◌++◌,
  if◌then◌else◌,
}
use jaspy.Webui.Platform.{Platform}
use jaspy.Webui.Discovery.{
  DiscoveryConfig, FormState, DeviceUpdate, to_form, from_form, new_device_body,
}
use jaspy.Webui.Overview.{can_run}
use jaspy.Webui.Client.Calls.{ApiCall, put_discovery_config, create_device, run_discovery}
pub mod Saved

pub data Query : Type 0 where
  discovery_status devices summary : Query

pub record Page : Type 0 where
  -- The last answer to `discovery-config`, or what a save put in its place.
  pub config : Option DiscoveryConfig
  pub running : Option Bool
  pub form : Option FormState
  pub saving : Bool
  pub log_nudge : ℕ
  pub starting : Bool
  pub add_fqdn : String
  pub add_community : String
  pub adding : Bool
  pub calls : List ApiCall
  pub invalidated : List Query

abbrev pub initial : Page
initial = record {
  config = none;
  running = none;
  form = none;
  saving = false;
  log_nudge = 0;
  starting = false;
  add_fqdn = "";
  add_community = "";
  adding = false;
  calls = [];
  invalidated = [];
}

-- A change to one field of the form is a function of the form.
pub data Event : Type 0 where
  config_answer : DiscoveryConfig → Event
  status_answer : Bool → Event
  set_field : (FormState → FormState) → Event
  submit_config : Event
  config_saved : DiscoveryConfig → Event
  config_failed : Event
  press_run : Event
  run_settled : Event
  type_fqdn type_community : String → Event
  submit_device : Event
  device_added : Event
  device_failed : Event

abbrev called : ApiCall → Page → Page
called c s = record s { calls = s.calls ++ (c ∷ []) }

-- The effect that fills the form, once.
unfoldable pub fill_form : Page → Page
unfolding to_form
fill_form s = elim s.form [
  | some f ↦ s
  | none ↦ elim s.config [ none ↦ s | some c ↦ record s { form = some (to_form c) } ]
]

unfoldable pub set_form : (FormState → FormState) → Page → Page
set_form change s = elim s.form [ none ↦ s | some f ↦ record s { form = some (change f) } ]

-- The answer of the save replaces the form.
unfoldable pub on_config_saved : DiscoveryConfig → Page → Page
unfolding to_form
on_config_saved saved s = record s {
  config = some saved;
  form = some (to_form saved);
  saving = false;
}

module _ (platform : Platform) where
  -- A form whose button is disabled is not submitted.
  unfoldable pub on_submit_config : Page → Page
  unfolding from_form
  on_submit_config s = elim s.form [
    | none ↦ s
    | some f ↦
        if s.saving
        then s
        else called (put_discovery_config (from_form platform f)) (record s { saving = true })
  ]

  unfoldable pub on_press_run : Page → Page
  unfolding can_run
  on_press_run s = elim s.running [
    | none ↦ s
    | some running ↦
        if can_run running s.starting s.config
        then called run_discovery (record s { log_nudge = suc s.log_nudge; starting = true })
        else s
  ]

  unfoldable pub on_submit_device : Page → Page
  unfolding new_device_body
  on_submit_device s = elim (new_device_body platform s.add_fqdn s.add_community) [
    | none ↦ s
    | some body ↦ if s.adding then s else called (create_device body) (record s { adding = true })
  ]

  unfoldable pub step : Event → Page → Page
  unfolding fill_form set_form on_config_saved on_submit_config on_press_run on_submit_device
  step (config_answer c) s = fill_form (record s { config = some c })
  step (status_answer running) s = record s { running = some running }
  step (set_field change) s = set_form change s
  step submit_config s = on_submit_config s
  step (config_saved saved) s = on_config_saved saved s
  step config_failed s = record s { saving = false }
  step press_run s = on_press_run s
  step run_settled s = record s {
    starting = false;
    invalidated = s.invalidated ++ (discovery_status ∷ []);
  }
  step (type_fqdn fqdn) s = record s { add_fqdn = fqdn }
  step (type_community community) s = record s { add_community = community }
  step submit_device s = on_submit_device s
  step device_added s = record s {
    add_fqdn = "";
    add_community = "";
    adding = false;
    invalidated = s.invalidated ++ (devices ∷ summary ∷ []);
  }
  step device_failed s = record s { adding = false }

  unfoldable pub run : List Event → Page → Page
  unfolding step
  run [] s = s
  run (e ∷ events) s = run events (step e s)
