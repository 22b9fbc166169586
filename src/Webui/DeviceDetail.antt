-- ===== src/Webui/DeviceDetail.antt =====
-- nexus/webui/src/pages/DeviceDetail.tsx: VLAN lists, port speeds, quality of service.
use jaspy.Prelude.{
  ℕ, suc, zero, ◌+◌, ◌*◌, ◌-◌, ◌/◌, ◌%◌, ◌≤◌, Bool, true, false, ◌&&◌, ◌||◌, String, Option, none,
  some, List, [], ◌∷◌, ◌++◌, map, length, Dict, get, put, if◌then◌else◌, str_eq, str_append, ltb,
  leb, ◌==◌,
}
use jaspy.Webui.Platform.{Platform}
use jaspy.Webui.Text.{join}
pub mod Ranges
pub mod Ports
pub mod Health
pub mod Units
pub mod Rows
pub mod Controls
pub mod Bundles
pub mod Cells
pub mod Qos

-- The outer loop of `formatVlanRanges` at a segment from `low` to `high`, with the list behind it.
unfoldable pub segments_from : ℕ → ℕ → List ℕ → List (ℕ × ℕ)
segments_from low high [] = (low, high) ∷ []
segments_from low high (v ∷ vlans) =
    let wider = segments_from low v vlans in
    let next = (low, high) ∷ segments_from v v vlans in if v == suc high then wider else next

unfoldable pub segments : List ℕ → List (ℕ × ℕ)
unfolding segments_from
segments [] = []
segments (v ∷ vlans) = segments_from v v vlans

abbrev pub max_vlan_segments : ℕ
max_vlan_segments = 6

-- Milliwatts to tenths of a watt, rounded.
unfoldable pub tenths_of_watts : ℕ → ℕ
tenths_of_watts mw = (mw + 50) / 100

unfoldable pub poe_meter_color : ℕ → String
poe_meter_color pct = if leb 95 pct then "#e5534b" else if leb 85 pct then "#d9a406" else "#3fb950"

module _ (platform : Platform) where
  -- Tenths are written with a decimal where there are any.
  unfoldable pub format_watts : Option ℕ → Option String
  unfolding tenths_of_watts join
  format_watts none = none
  format_watts (some mw) =
      let tenths = tenths_of_watts mw in
      let whole = platform.show (tenths / 10) in
      let decimal = join "" (whole ∷ "." ∷ platform.show (tenths % 10) ∷ " W" ∷ []) in
      some (if tenths % 10 == 0 then str_append whole " W" else decimal)

  segment_text : ℕ × ℕ → String
  segment_text (low, high) =
      if ltb low high
      then str_append (platform.show low) (str_append "-" (platform.show high))
      else platform.show low

  unfoldable pub format_vlan_ranges : List ℕ → String
  unfolding segments segment_text join
  format_vlan_ranges vlans = join ", " (map segment_text (segments vlans))

  -- `ranges.split(', ')` has a part for each segment, and one for an empty list.
  unfoldable pub summarize_tagged_vlans : List ℕ → String
  unfolding format_vlan_ranges segments
  summarize_tagged_vlans vlans =
      if leb (length (segments vlans)) max_vlan_segments
      then format_vlan_ranges vlans
      else str_append (platform.show (length vlans)) " tagged VLANs"

  unfoldable pub human_duration : ℕ → String
  human_duration secs =
      let mins = (secs + 30) / 60 in
      if ltb secs 90
      then str_append (platform.show secs) (if secs == 1 then " second" else " seconds")
      else str_append (platform.show mins) (if mins == 1 then " minute" else " minutes")

pub record QosPolice : Type 0 where
  pub conform_pkts : Option ℕ
  pub conform_bytes : Option ℕ
  pub exceed_pkts : Option ℕ
  pub exceed_bytes : Option ℕ
  pub violate_pkts : Option ℕ
  pub violate_bytes : Option ℕ

pub record QosClass : Type 0 where
  pub interface : Option String
  pub interface_id : Option ℕ
  pub direction : String
  pub policy_map : String
  pub class_map : String
  pub prepolicy_pkts : Option ℕ
  pub prepolicy_bytes : Option ℕ
  pub postpolicy_bytes : Option ℕ
  pub drop_pkts : Option ℕ
  pub drop_bytes : Option ℕ
  pub police : Option QosPolice

pub record QosGroup : Type 0 where
  pub key : String
  pub interface : String
  pub direction : String
  pub policy_map : String
  pub classes : List QosClass

abbrev pub interface_of : QosClass → String
interface_of c = elim c.interface [ none ↦ "control-plane" | some i ↦ i ]

-- The separator is the character with code 0.
unfoldable pub qos_key : QosClass → String
qos_key c =
    str_append (interface_of c)
      (str_append "\0" (str_append c.direction (str_append "\0" c.policy_map)))

-- A round of the loop. `groups` and `byKey` hold the same groups in the same order; they are one
-- dictionary here, and the push is seen in both.
unfoldable pub add_class : QosClass → Dict QosGroup → Dict QosGroup
unfolding qos_key
add_class c by_key = elim (get (qos_key c) by_key) [
  | none ↦
      put (qos_key c)
        (record {
          key = qos_key c;
          interface = interface_of c;
          direction = c.direction;
          policy_map = c.policy_map;
          classes = c ∷ [];
        })
        by_key
  | some g ↦ put (qos_key c) (record g { classes = g.classes ++ (c ∷ []) }) by_key
]

unfoldable pub group_from : List QosClass → Dict QosGroup → Dict QosGroup
unfolding add_class
group_from [] by_key = by_key
group_from (c ∷ qos) by_key = group_from qos (add_class c by_key)

abbrev pub values : {A : Type 0} → Dict A → List A
values [] = []
values ((k, v) ∷ d) = v ∷ values d

unfoldable pub group_qos : List QosClass → List QosGroup
unfolding group_from
group_qos qos = values (group_from qos [])
