-- ===== src/Webui/DeviceDetail/Ports.antt =====
-- nexus/webui/src/pages/DeviceDetail.tsx: the summary of the ports of a device.
use Prim.Native.Char.{code}
use jaspy.Prelude.{
  ℕ, ◌+◌, ◌*◌, ◌-◌, ◌/◌, ◌%◌, Bool, true, false, not, ◌&&◌, ◌||◌, String, Option, none, some, List,
  [], ◌∷◌, ◌++◌, map, length, Dict, get, put, if◌then◌else◌, str_eq, str_append, ltb, leb, ◌==◌,
}
use jaspy.Webui.Platform.{Platform}
use jaspy.Webui.Text.{join}
use jaspy.Webui.Patterns.{is_digit, starts_i, includes_i, starts_with, slice, has_one_gig}
use jaspy.Webui.DeviceTypes.{Interface}
use jaspy.Webui.Issues.Order.{keep, difference}
pub mod Counts

-- The text of a number of thousandths.
thousandths : Platform → ℕ → String
unfolding join
thousandths platform n =
    let rest = n % 1000 in
    let digits : String =
      if rest % 100 == 0
      then platform.show (rest / 100)
      else if rest % 10 == 0
      then join "" (platform.show (rest / 100) ∷ platform.show (rest / 10 % 10) ∷ [])
      else join "" (
          platform.show (rest / 100)
          ∷ platform.show (rest / 10 % 10)
          ∷ platform.show (rest % 10)
          ∷ []) in
    let decimal = join "" (platform.show (n / 1000) ∷ "." ∷ digits ∷ []) in
    if rest == 0 then platform.show (n / 1000) else decimal

abbrev name_of : Interface → String
name_of i = elim i.display_name [ none ↦ i.name | some n ↦ n ]

unfoldable pub port_speed_label : Platform → Interface → String
unfolding starts_i thousandths
port_speed_label platform i =
    let n = name_of i in
    let negotiated : String = elim i.speed [
      | none ↦ "?"
      | some s ↦
          if leb 1000 s
          then str_append (thousandths platform s) "G"
          else str_append (platform.show s) "M"
    ] in
    if starts_i "hu" n || starts_i "hundredgig" n
    then "100G"
    else if starts_i "fo" n || starts_i "fortygig" n
    then "40G"
    else if starts_i "twe" n || starts_i "twentyfivegig" n
    then "25G"
    else if starts_i "te" n || starts_i "tengig" n
    then "10G"
    else if starts_i "gi" n || starts_i "gigabitethernet" n
    then "1G"
    else if starts_i "fa" n || starts_i "fastethernet" n
    then "100M"
    else negotiated

-- The end of the label, `[MG]$`, behind a number of millionths.
unit_rank : ℕ → String → Option ℕ
unit_rank millionths String.[] = none
unit_rank millionths (String.◌∷◌ c s) =
    if code c == b'M' && str_eq s ""
    then some millionths
    else if code c == b'G' && str_eq s ""
    then some (millionths * 1000)
    else none

-- The digits behind the point, the next of which is worth `place`. `any` tells whether there was one.
fraction_rank : Bool → ℕ → ℕ → String → Option ℕ
unfolding unit_rank is_digit
fraction_rank any place millionths String.[] = none
fraction_rank any place millionths (String.◌∷◌ c s) =
    let more = fraction_rank true (place / 10) (millionths + (code c - b'0') * place) s in
    if is_digit c then more else if any then unit_rank millionths (String.◌∷◌ c s) else none

whole_rank : Bool → ℕ → String → Option ℕ
unfolding fraction_rank unit_rank is_digit
whole_rank any n String.[] = none
whole_rank any n (String.◌∷◌ c s) =
    let more = whole_rank true (n * 10 + (code c - b'0')) s in
    let fraction = fraction_rank false 100000 (n * 1000000) s in
    if is_digit c
    then more
    else if not any
    then none
    else if code c == b'.'
    then fraction
    else unit_rank (n * 1000000) (String.◌∷◌ c s)

-- In millionths of a Mb/s. A label has at most three decimals.
unfoldable pub speed_rank : String → ℕ
unfolding whole_rank
speed_rank label = elim (whole_rank false 0 label) [
  | none ↦ 9007199254740991 * 1000000
  | some rank ↦ rank
]

unfoldable pub sfp_kind_from_descr : String → Option String
unfolding includes_i has_one_gig
sfp_kind_from_descr descr =
    if includes_i "100g" descr
    then some "QSFP28"
    else if includes_i "40g" descr
    then some "QSFP+"
    else if includes_i "25g" descr
    then some "SFP28"
    else if includes_i "10g" descr
    then some "SFP+"
    else if includes_i "1000base" descr || has_one_gig descr
    then some "SFP"
    else none

kind_of_speed : String → String
kind_of_speed label =
    if str_eq label "100G"
    then "QSFP28"
    else if str_eq label "40G"
    then "QSFP+"
    else if str_eq label "25G"
    then "SFP28"
    else if str_eq label "10G"
    then "SFP+"
    else "SFP"

abbrev pub media_of : Interface → String
media_of i = elim i.media [ none ↦ "" | some m ↦ m ]

unfoldable pub sfp_kind : Platform → Interface → String
unfolding sfp_kind_from_descr kind_of_speed port_speed_label starts_with slice
sfp_kind platform i =
    let inferred = kind_of_speed (port_speed_label platform i) in
    let seated : String = elim (sfp_kind_from_descr (slice 4 (media_of i))) [
      | none ↦ inferred
      | some kind ↦ kind
    ] in
    if starts_with "sfp:" (media_of i) then seated else inferred

unfoldable pub media_label : Platform → String → String
unfolding sfp_kind_from_descr starts_with slice join
media_label platform media =
    let descr : String = if starts_with "sfp:" media then platform.trim (slice 4 media) else "" in
    let kind : String = elim (sfp_kind_from_descr descr) [ none ↦ "SFP" | some k ↦ k ] in
    let labelled = join "" (kind ∷ " (" ∷ descr ∷ ")" ∷ []) in
    if str_eq media "copper"
    then "copper (RJ45)"
    else if str_eq media "sfp"
    then "SFP slot (empty)"
    else if str_eq descr ""
    then "SFP"
    else labelled

-- A part of the summary: some ports of one speed, or some slots of one kind.
pub data Part : Type 0 where
  tier : String → ℕ → String → Part
  slots : String → ℕ → ℕ → Part

unfoldable pub is_physical : Interface → Bool
is_physical i = str_eq i.interface_type "ethernetCsmacd"

abbrev is_copper : Interface → Bool
is_copper i = str_eq (media_of i) "copper"

abbrev is_sfp : Interface → Bool
is_sfp i = starts_with "sfp" (media_of i)

abbrev has_no_media : Interface → Bool
has_no_media i = str_eq (media_of i) ""

unfoldable pub or_zero : Option ℕ → ℕ
or_zero none = 0
or_zero (some n) = n

unfoldable pub count_labels : List String → Dict ℕ → Dict ℕ
unfolding or_zero
count_labels [] counts = counts
count_labels (label ∷ labels) counts =
    count_labels labels (put label (or_zero (get label counts) + 1) counts)

-- The totals and the populated ones of a kind.
abbrev Group : Type 0
Group = ℕ × ℕ

abbrev or_empty : Option Group → Group
or_empty none = (0, 0)
or_empty (some g) = g

abbrev counted : Interface → Group → Group
counted i (total, populated) =
    (total + 1, if starts_with "sfp:" (media_of i) then populated + 1 else populated)

unfoldable pub group_slots : Platform → List Interface → Dict Group → Dict Group
unfolding sfp_kind starts_with
group_slots platform [] groups = groups
group_slots platform (i ∷ sfp) groups =
    let kind = sfp_kind platform i in
    group_slots platform sfp (put kind (counted i (or_empty (get kind groups))) groups)

index_in : String → List String → ℕ
index_in k [] = 0
index_in k (o ∷ order) = if str_eq o k then 0 else index_in k order + 1

-- A kind that is not in the list has its length.
unfoldable pub kind_rank : String → ℕ
unfolding index_in
kind_rank k = index_in k ("SFP" ∷ "SFP+" ∷ "SFP28" ∷ "QSFP+" ∷ "QSFP28" ∷ [])

module _ (platform : Platform) where
  unfoldable pub by_tier : List Interface → String → List Part
  unfolding count_labels port_speed_label speed_rank
  by_tier list suffix =
      map (λ (label, n). tier label n suffix)
        (platform.sort (λ a b. difference (speed_rank a.0) (speed_rank b.0))
          (count_labels (map (port_speed_label platform) list) []))

  unfoldable pub sfp_parts : List Interface → List Part
  unfolding group_slots kind_rank
  sfp_parts sfp =
      map (λ (kind, (total, populated)). slots kind total populated)
        (platform.sort (λ a b. difference (kind_rank a.0) (kind_rank b.0))
          (group_slots platform sfp []))

  unfoldable pub port_parts : List Interface → List Part
  unfolding by_tier sfp_parts is_physical starts_with
  port_parts interfaces =
      let phys = keep is_physical interfaces in
      by_tier (keep is_copper phys) " copper"
      ++ (by_tier (keep has_no_media phys) "" ++ sfp_parts (keep is_sfp phys))

  part_text : Part → String
  unfolding join
  part_text (tier label n suffix) = join "" (platform.show n ∷ " × " ∷ label ∷ suffix ∷ [])
  part_text (slots kind total populated) =
      let note = join "" (" (" ∷ platform.show populated ∷ " populated)" ∷ []) in
      join "" (
        platform.show total
        ∷ " "
        ∷ kind
        ∷ " slot"
        ∷ (if total == 1 then "" else "s")
        ∷ (if ltb 0 populated then note else "")
        ∷ [])

  -- Without parts there is no text, also where there are physical ports.
  unfoldable pub summarize_ports : List Interface → Option String
  unfolding port_parts part_text join
  summarize_ports interfaces = elim (port_parts interfaces) [
    | [] ↦ none
    | p ∷ parts ↦ some (join ", " (map part_text (p ∷ parts)))
  ]
