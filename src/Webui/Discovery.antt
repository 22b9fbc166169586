-- ===== src/Webui/Discovery.antt =====
-- nexus/webui/src/pages/Discovery.tsx: the settings of the discovery as a form, and the form that
-- adds a device.
use Prim.Native.Char.{Char, code}
use jaspy.Prelude.{
  ℕ, Bool, true, false, not, ◌&&◌, ◌||◌, String, Option, none, some, List, [], ◌∷◌, ◌++◌, map, Dict,
  put, if◌then◌else◌, str_eq, str_append, ◌==◌,
}
use jaspy.Webui.Platform.{Platform}
use jaspy.Webui.Text.{split, join}
pub mod Forms
pub mod Settings
pub mod Page
pub mod NewDevice

pub record DiscoveryConfig : Type 0 where
  pub root_device : Option String
  pub community : Option String
  pub dns_domains : List String
  pub ignore : List String
  pub remap : Dict String
  pub topology_stable : Bool
  pub periodic_enabled : Bool
  pub interval_secs : ℕ

pub record FormState : Type 0 where
  pub root_device : String
  pub community : String
  pub dns_domains : String
  pub ignore : String
  pub remap : String
  pub topology_stable : Bool
  pub periodic_enabled : Bool
  pub interval_secs : ℕ

pub record DeviceUpdate : Type 0 where
  pub name : String
  pub dns_domain : String
  pub snmp_community : Option String
  pub base_mac : Option String
  pub polling_enabled : Option Bool
  pub os_info : Option String
  pub device_type : Option String
  pub software_version : Option String

abbrev or_blank : Option String → String
or_blank none = ""
or_blank (some s) = s

-- `s || null`
abbrev or_null : String → Option String
or_null s = if str_eq s "" then none else some s

remap_text : String × String → String
remap_text (src, dst) = str_append src (str_append ":" dst)

unfoldable pub to_form : DiscoveryConfig → FormState
unfolding join remap_text
to_form config = record {
  root_device = or_blank config.root_device;
  community = or_blank config.community;
  dns_domains = join ", " config.dns_domains;
  ignore = join ", " config.ignore;
  remap = join ", " (map remap_text config.remap);
  topology_stable = config.topology_stable;
  periodic_enabled = config.periodic_enabled;
  interval_secs = config.interval_secs;
}

-- `filter((s) => s.length > 0)`
unfoldable pub without_blank : List String → List String
without_blank [] = []
without_blank (s ∷ parts) = let rest = without_blank parts in if str_eq s "" then rest else s ∷ rest

-- The text before and after the first `d`, if there is one.
unfoldable pub cut : Char → String → Option (String × String)
cut d String.[] = none
cut d (String.◌∷◌ c s) =
    let later : Option (String × String) = elim (cut d s) [
      | none ↦ none
      | some (before, after) ↦ some (String.◌∷◌ c before, after)
    ] in
    if code c == code d then some (String.[], s) else later

-- The entries of the remapping: `idx > 0` asks for a first colon that is not in front.
unfoldable pub remap_entries : List String → Dict String → Dict String
unfolding cut
remap_entries [] remap = remap
remap_entries (entry ∷ entries) remap = elim (cut ":" entry) [
  | none ↦ remap_entries entries remap
  | some (src, dst) ↦
      let added = remap_entries entries (put src dst remap) in
      let skipped = remap_entries entries remap in if str_eq src "" then skipped else added
]

module _ (platform : Platform) where
  unfoldable pub split_csv : String → List String
  unfolding split without_blank
  split_csv value = without_blank (map platform.trim (split "," value))

  unfoldable pub from_form : FormState → DiscoveryConfig
  unfolding split_csv remap_entries
  from_form form = record {
    root_device = or_null (platform.trim form.root_device);
    community = or_null (platform.trim form.community);
    dns_domains = split_csv form.dns_domains;
    ignore = split_csv form.ignore;
    remap = remap_entries (split_csv form.remap) [];
    topology_stable = form.topology_stable;
    periodic_enabled = form.periodic_enabled;
    interval_secs = form.interval_secs;
  }

  -- No first dot, one in front, or one at the end: no device.
  unfoldable pub new_device_body : String → String → Option DeviceUpdate
  unfolding cut
  new_device_body fqdn community = elim (cut "." (platform.trim fqdn)) [
    | none ↦ none
    | some (name, domain) ↦
        if str_eq name "" || str_eq domain ""
        then none
        else some (record {
          name = name;
          dns_domain = domain;
          snmp_community = or_null (platform.trim community);
          base_mac = none;
          polling_enabled = none;
          os_info = none;
          device_type = none;
          software_version = none;
        })
  ]
