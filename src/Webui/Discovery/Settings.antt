-- ===== src/Webui/Discovery/Settings.antt =====
-- nexus/webui/src/pages/Discovery.tsx: all settings through the form and back.
use Prim.Native.Char.{Char}
use jaspy.Prelude.{
  false, String, Option, none, some, [], ◌∷◌, ◌++◌, map, Dict, get, put, has, ◌≡◌, refl, ap, sym,
  ◌∙◌, All, str_eq, str_append, arith, Bool-cases, inl, inr,
}
use mathlib.Core.List.{append_assoc, append-nil}
use jaspy.Webui.Platform.{Platform, TrimsSpace}
use jaspy.Webui.Text.Split.{has_char, append_nil, append_cons}
use jaspy.Webui.Discovery.{
  DiscoveryConfig, to_form, from_form, remap_entries, remap_text, cut, or_null, or_blank,
}
use jaspy.Webui.Discovery.Forms.{IsEntry, split_csv-join}

-- A text that is null, or trimmed and not empty.
abbrev IsOptional : Platform → Option String → Type 0
IsOptional platform none = Unit
IsOptional platform (some s) = (platform.trim s ≡ s) × (str_eq s "" ≡ false)

-- A pair that can be written as an entry: its source is not empty and has no colon.
abbrev IsRemap : Platform → String × String → Type 0
IsRemap platform (src, dst) =
    IsEntry platform (str_append src (str_append ":" dst))
    × (has_char ":" src ≡ false)
    × (str_eq src "" ≡ false)

-- No source stands twice.
abbrev Fresh : Dict String → Dict String → Type 0
Fresh before [] = Unit
Fresh before ((src, dst) ∷ entries) =
    (has src before ≡ false) × Fresh (before ++ ((src, dst) ∷ [])) entries

-- What the form can hold.
pub record IsHeld (platform : Platform) (config : DiscoveryConfig) : Type 0 where
  pub root_device : IsOptional platform config.root_device
  pub community : IsOptional platform config.community
  pub dns_domains : All (IsEntry platform) config.dns_domains
  pub ignore : All (IsEntry platform) config.ignore
  pub remap : All (IsRemap platform) config.remap
  pub sources : Fresh [] config.remap

cut-append :
    (d : Char) (src dst : String)
    → has_char d src ≡ false
    → cut d (str_append src (String.◌∷◌ d dst)) ≡ some (src, dst)
unfolding cut has_char
cut-append d String.[] dst h = rw (append_nil (String.◌∷◌ d dst)) (ground arith)
cut-append d (String.◌∷◌ c src) dst h =
    rw (append_cons c src (String.◌∷◌ d dst))
      (ground (arith, h, cut-append d src dst (ground (arith, h))))

put_new : (k v : String) (d : Dict String) → has k d ≡ false → put k v d ≡ d ++ ((k, v) ∷ [])
unfolding put get
put_new k v [] h = refl
put_new k v ((j, w) ∷ d) h = elim (Bool-cases (str_eq j k)) [
  | inl e ↦ cc (rw (e) at h)
  | inr e ↦ rw e (ap (◌∷◌ (j, w)) (put_new k v d (rw e at h)))
]

remap_entries-text :
    (platform : Platform) (before entries : Dict String)
    → All (IsRemap platform) entries
    → Fresh before entries
    → remap_entries (map remap_text entries) before ≡ before ++ entries
unfolding remap_entries remap_text
remap_entries-text platform before [] hs fresh = sym (append-nil before)
remap_entries-text platform before ((src, dst) ∷ entries) hs fresh =
    let colon : str_append ":" dst ≡ String.◌∷◌ ":" dst =
      append_cons ":" "" dst ∙ ap (String.◌∷◌ ":") (append_nil dst) in
    let found : cut ":" (str_append src (str_append ":" dst)) ≡ some (src, dst) =
      ap (λ x. cut ":" (str_append src x)) colon ∙ cut-append ":" src dst hs.0.1 in
    rw (remap_entries, found, hs.0.2, put_new src dst before fresh.0)
      (remap_entries-text platform (before ++ ((src, dst) ∷ [])) entries hs.1 fresh.1
        ∙ append_assoc before ((src, dst) ∷ []) entries)

entries_of_remap :
    (platform : Platform) (entries : Dict String)
    → All (IsRemap platform) entries
    → All (IsEntry platform) (map remap_text entries)
unfolding remap_text
entries_of_remap platform [] hs = tt
entries_of_remap platform (entry ∷ entries) hs = (hs.0.0, entries_of_remap platform entries hs.1)

or_null-or_blank :
    (platform : Platform) (o : Option String)
    → TrimsSpace platform
    → IsOptional platform o
    → or_null (platform.trim (or_blank o)) ≡ o
or_null-or_blank platform none trims h = rw (trims.trim_blank) refl
or_null-or_blank platform (some s) trims h = rw (h.0, h.1) refl

-- For a trim that drops a space in front and leaves the empty text, settings that the form can
-- hold, whose texts are trimmed and not empty, whose entries have no commas and whose remappings
-- have different sources without colons, come back from the form as they were.
pub from_form-settings :
    (platform : Platform) (config : DiscoveryConfig)
    → TrimsSpace platform
    → IsHeld platform config
    → from_form platform (to_form config) ≡ config
unfolding from_form to_form
from_form-settings platform config trims held = λ i. record {
  root_device = or_null-or_blank platform config.root_device trims held.root_device i;
  community = or_null-or_blank platform config.community trims held.community i;
  dns_domains = split_csv-join platform trims config.dns_domains held.dns_domains i;
  ignore = split_csv-join platform trims config.ignore held.ignore i;
  remap =
      (ap (λ x. remap_entries x [])
            (split_csv-join platform trims (map remap_text config.remap)
              (entries_of_remap platform config.remap held.remap))
          ∙ remap_entries-text platform [] config.remap held.remap held.sources)
        i;
  topology_stable = config.topology_stable;
  periodic_enabled = config.periodic_enabled;
  interval_secs = config.interval_secs;
}
