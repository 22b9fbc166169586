-- ===== src/Webui/StpPage.antt =====
-- nexus/webui/src/pages/STP.tsx: the page around the route: the parameters in its address, the VLAN
-- that is shown by default, and the marks of expected roots.
use jaspy.Prelude.{
  ℕ, Bool, true, false, not, ◌&&◌, ◌||◌, String, Option, none, some, List, [], ◌∷◌, ◌++◌, map, Dict,
  get, put, has, delete, if◌then◌else◌, str_eq, ltb, length, is_some,
}
use jaspy.Webui.Platform.{Platform}
use jaspy.Webui.Types.{StpTree, StpNode, StpRootClaim}
use jaspy.Webui.StpPath.{StpPath, compute_stp_path}
use jaspy.Webui.Issues.Order.{keep}
use jaspy.Webui.Client.Calls.{
  ApiCall, StpExpectedRootRequest, mark_expected_root, unmark_expected_root,
}
pub mod Cells
pub mod Pending
pub mod Default

-- The queries that are fetched again.
pub data Query : Type 0 where
  stp_query issues_query : Query
  vlan_query : ℕ → Query

pub record Page : Type 0 where
  pub params : Dict String
  -- The VLANs of the last answer to the summary.
  pub vlans : List ℕ
  pub marking_fqdn : Option String
  pub mark_note : String
  pub marking : Bool
  pub unmarking : Bool
  pub calls : List ApiCall
  pub invalidated : List Query

abbrev pub opened : Dict String → Page
opened params = record {
  params = params;
  vlans = [];
  marking_fqdn = none;
  mark_note = "";
  marking = false;
  unmarking = false;
  calls = [];
  invalidated = [];
}

pub data Event : Type 0 where
  summary_answer : List ℕ → Event
  choose : String → String → Event
  open_mark_form : String → Event
  type_note : String → Event
  cancel_mark : Event
  confirm_mark : String → Event
  mark_settled : Bool → Event
  press_unmark : String → Event
  unmark_settled : Bool → Event

unfoldable pub set_param : String → String → Page → Page
set_param key value s =
    let next = if str_eq value "" then delete key s.params else put key value s.params in
    record s { params = next }

unfoldable pub first_vlan : List ℕ → Option ℕ
first_vlan [] = none
first_vlan (v ∷ vlans) = some v

unfoldable pub close_mark_form : Page → Page
close_mark_form s = record s { marking_fqdn = none; mark_note = "" }

-- `params.get(key) ?? ''`
unfoldable pub param_or_blank : String → Page → String
param_or_blank key s = elim (get key s.params) [ none ↦ "" | some value ↦ value ]

-- The route is computed for two ends that are given and differ.
unfoldable pub path_of : Option StpTree → Page → Option StpPath
unfolding param_or_blank
path_of none s = none
path_of (some tree) s =
    let start = param_or_blank "from" s in
    let end = param_or_blank "to" s in
    let path = some (compute_stp_path tree start end) in
    if str_eq start "" || (str_eq end "" || str_eq start end) then none else path

-- A reported root that is superior and not polled is no mismatch.
unfoldable pub root_unmonitored : StpNode → Bool
root_unmonitored n = elim n.root_mismatch_detail [
  | none ↦ false
  | some d ↦
      let superior : Bool = elim d.reported_root_superior [ none ↦ false | some b ↦ b ] in
      superior && not d.reported_root_monitored
]

module _ (platform : Platform) (number : String → ℕ) where
  unfoldable pub choose_first : Option ℕ → Page → Page
  choose_first none s = s
  choose_first (some v) s =
      let chosen = record s { params = put "vlan" (platform.show v) s.params } in
      if has "vlan" s.params then s else chosen

  -- The effect that chooses the first VLAN where none is chosen.
  unfoldable pub default_vlan : Page → Page
  unfolding first_vlan choose_first
  default_vlan s = choose_first (first_vlan s.vlans) s

  -- The VLAN of a call; the tables with the buttons are there only with a VLAN.
  unfoldable pub vlan_of : Page → ℕ
  unfolding param_or_blank
  vlan_of s = number (param_or_blank "vlan" s)

  note_or_null : Page → Option String
  note_or_null s =
      let note = platform.trim s.mark_note in if str_eq note "" then none else some note

  unfoldable pub invalidate : Page → Page
  unfolding vlan_of
  invalidate s =
      let tree = if has "vlan" s.params then vlan_query (vlan_of s) ∷ [] else [] in
      record s { invalidated = s.invalidated ++ (stp_query ∷ tree ++ (issues_query ∷ [])) }

  -- While a mark is set or removed the buttons are disabled.
  unfoldable pub on_confirm_mark : String → Page → Page
  unfolding vlan_of note_or_null
  on_confirm_mark fqdn s =
      let body : StpExpectedRootRequest = record {
        vlan = vlan_of s;
        root_fqdn = fqdn;
        note = note_or_null s;
      } in
      if s.marking || s.unmarking
      then s
      else record s { marking = true; calls = s.calls ++ (mark_expected_root body ∷ []) }

  unfoldable pub on_unmark : String → Page → Page
  unfolding vlan_of
  on_unmark fqdn s =
      let body : StpExpectedRootRequest = record {
        vlan = vlan_of s;
        root_fqdn = fqdn;
        note = none;
      } in
      if s.marking || s.unmarking
      then s
      else record s { unmarking = true; calls = s.calls ++ (unmark_expected_root body ∷ []) }

  unfoldable pub handle : Event → Page → Page
  unfolding set_param close_mark_form invalidate on_confirm_mark on_unmark
  handle (summary_answer vlans) s = record s { vlans = vlans }
  handle (choose key value) s = set_param key value s
  handle (open_mark_form fqdn) s =
      if s.marking || s.unmarking then s else record s { mark_note = ""; marking_fqdn = some fqdn }
  handle (type_note note) s = record s { mark_note = note }
  handle cancel_mark s = if s.marking || s.unmarking then s else close_mark_form s
  handle (confirm_mark fqdn) s = on_confirm_mark fqdn s
  handle (mark_settled succeeded) s =
      let done = record s { marking = false } in
      if succeeded then invalidate (close_mark_form done) else done
  handle (press_unmark fqdn) s = on_unmark fqdn s
  handle (unmark_settled succeeded) s =
      let done = record s { unmarking = false } in if succeeded then invalidate done else done

  -- A handler, and the effect behind it.
  unfoldable pub step : Event → Page → Page
  unfolding handle default_vlan
  step e s = default_vlan (handle e s)

  unfoldable pub run : List Event → Page → Page
  unfolding step
  run [] s = s
  run (e ∷ events) s = run events (step e s)
