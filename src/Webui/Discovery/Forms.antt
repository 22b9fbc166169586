-- ===== src/Webui/Discovery/Forms.antt =====
-- nexus/webui/src/pages/Discovery.tsx: the settings through the form and back.
use jaspy.Prelude.{
  false, String, List, [], ◌∷◌, map, str_eq, str_append, ◌≡◌, ◌≢◌, refl, ap, sym, ◌∙◌, All,
}
use jaspy.Webui.Platform.{Platform, TrimsSpace}
use jaspy.Webui.Text.{split, join}
use jaspy.Webui.Text.Split.{
  has_char, split-append, split_one, split_cons, split_first, append_nil, append_cons,
}
use jaspy.Webui.Discovery.{DiscoveryConfig, split_csv, without_blank, to_form, from_form}

-- An entry of a list that the form can hold: not empty, without commas, and trimmed.
pub record IsEntry (platform : Platform) (s : String) : Type 0 where
  pub whole : has_char "," s ≡ false
  pub trimmed : platform.trim s ≡ s
  pub filled : str_eq s "" ≡ false

module _ (platform : Platform) (trims : TrimsSpace platform) where
  space_cons : (t : String) → str_append " " t ≡ String.◌∷◌ " " t
  space_cons t = append_cons " " String.[] t ∙ ap (λ x. String.◌∷◌ " " x) (append_nil t)

  -- A space in front of the first part is trimmed away.
  split_space :
      (t : String)
      → map platform.trim (split "," (str_append " " t)) ≡ map platform.trim (split "," t)
  split_space t =
      let (p, ps, h) = split_cons "," t in
      let trimmed : platform.trim (String.◌∷◌ " " p) ≡ platform.trim p =
        ap platform.trim (sym (space_cons p)) ∙ trims.trim_space p in
      ap (λ x. map platform.trim (split "," x)) (space_cons t)
      ∙ ap (map platform.trim) (split_first "," " " t refl p ps h)
      ∙ ap (λ x. x ∷ map platform.trim ps) trimmed
      ∙ ap (map platform.trim) (sym h)

  -- The parts behind the first one start with a space.
  split_csv_more :
      (s : String) (parts : List String)
      → IsEntry platform s
      → All (IsEntry platform) parts
      → without_blank (map platform.trim (split "," (join ", " (s ∷ parts)))) ≡ s ∷ parts
  unfolding join without_blank
  split_csv_more s [] h hs = rw (split_one "," s h.whole, h.trimmed, h.filled) refl
  split_csv_more s (t ∷ parts) h hs =
      let rest = join ", " (t ∷ parts) in
      let comma : str_append ", " rest ≡ String.◌∷◌ "," (str_append " " rest) =
        append_cons "," " " rest in
      let later = split_csv_more t parts hs.0 hs.1 in
      ap (λ x. without_blank (map platform.trim (split "," (str_append s x)))) comma
      ∙ rw (split-append "," s (str_append " " rest) h.whole, h.trimmed, h.filled)
          (ap (λ x. s ∷ without_blank x) (split_space rest) ∙ ap (λ x. s ∷ x) later)

  pub split_csv-join_filled :
      (parts : List String)
      → All (IsEntry platform) parts
      → parts ≢ []
      → split_csv platform (join ", " parts) ≡ parts
  unfolding split_csv
  split_csv-join_filled [] hs some_part = absurd (some_part refl)
  split_csv-join_filled (s ∷ parts) hs some_part = split_csv_more s parts hs.0 hs.1

-- The same for a list that may be empty.
pub split_csv-join :
    (platform : Platform) (trims : TrimsSpace platform) (parts : List String)
    → All (IsEntry platform) parts
    → split_csv platform (join ", " parts) ≡ parts
unfolding split_csv join split without_blank
split_csv-join platform trims [] hs = rw (trims.trim_blank) refl
split_csv-join platform trims (s ∷ parts) hs =
    split_csv-join_filled platform trims (s ∷ parts) hs (λ e. cc e)

-- Where a space in front of a text is trimmed away, lists of domains and of ignored names that are
-- not empty, with entries that are trimmed, not empty and without commas, come back from the form
-- as they were.
pub from_form-to_form :
    (platform : Platform) (config : DiscoveryConfig)
    → TrimsSpace platform
    → All (IsEntry platform) config.dns_domains
    → config.dns_domains ≢ []
    → All (IsEntry platform) config.ignore
    → config.ignore ≢ []
    → let back = from_form platform (to_form config) in
      (back.dns_domains ≡ config.dns_domains) × (back.ignore ≡ config.ignore)
unfolding from_form to_form
from_form-to_form platform config trims domains some_domain ignored some_ignored = (
  split_csv-join_filled platform trims config.dns_domains domains some_domain,
  split_csv-join_filled platform trims config.ignore ignored some_ignored,
)
