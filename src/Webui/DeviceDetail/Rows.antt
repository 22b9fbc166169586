-- ===== src/Webui/DeviceDetail/Rows.antt =====
-- nexus/webui/src/pages/DeviceDetail.tsx: the rows of `InterfaceDetail`, in the order in which they
-- are shown.
use jaspy.Prelude.{
  ℕ, ◌+◌, Bool, true, false, not, ◌&&◌, ◌||◌, String, Option, none, some, List, [], ◌∷◌, ◌++◌,
  if◌then◌else◌, str_eq, str_append, ltb,
}
use jaspy.Webui.Platform.{Platform}
use jaspy.Webui.Text.{join}
use jaspy.Webui.DeviceTypes.{Interface, InterfaceHealth, InterfacePoe}
use jaspy.Webui.DeviceDetail.{human_duration, format_watts}
use jaspy.Webui.DeviceDetail.Health.{group_thousands}
use jaspy.Webui.DeviceDetail.Units.{format_bytes, format_bitrate}
use jaspy.Webui.DeviceDetail.Ports.{media_label}
use jaspy.Webui.Tables.{cdp_neighbor_text}
pub mod Marked

pub data Tone : Type 0 where
  warn_text bad_text : Tone

pub record Row : Type 0 where
  pub label : String
  pub value : String
  pub cls : Option Tone

abbrev plain : String → String → List Row
plain name text = record { label = name; value = text; cls = none } ∷ []

abbrev tone_if : Bool → Tone → Option Tone
tone_if b t = if b then some t else none

abbrev marked : String → String → Bool → Tone → List Row
marked name text b t = record { label = name; value = text; cls = tone_if b t } ∷ []

-- A row for a text that is there and not empty.
row_of_text : String → Option String → List Row
row_of_text name none = []
row_of_text name (some text) = if str_eq text "" then [] else plain name text

unfoldable pub poe_status_label : String → String
poe_status_label status =
    if str_eq status "searching"
    then "searching"
    else if str_eq status "disabled"
    then "disabled"
    else if str_eq status "fault" || str_eq status "otherFault"
    then "fault"
    else if str_eq status "test"
    then "test"
    else if str_eq status "other"
    then "—"
    else if str_eq status "deliveringPower"
    then "delivering power"
    else status

up_text : Option Bool → String
up_text none = "unknown"
up_text (some true) = "up"
up_text (some false) = "down"

module _ (platform : Platform) where
  in_last : ℕ → ℕ → String
  unfolding join
  in_last delta window =
      join "" (group_thousands platform delta ∷ " in last " ∷ human_duration platform window ∷ [])

  -- `counterVal`
  counter_val : ℕ → Option ℕ → ℕ → String
  counter_val window none delta = in_last delta window
  counter_val window (some total) delta =
      join "" (group_thousands platform total ∷ " (" ∷ in_last delta window ∷ ")" ∷ [])

  flap_val : InterfaceHealth → String
  flap_val h = elim h.last_flap_secs_ago [
    | none ↦ platform.show h.flap_count
    | some secs ↦
        let last =
          join "" (
            platform.show h.flap_count ∷ " (last " ∷ human_duration platform secs ∷ " ago)" ∷ []) in
        if ltb 0 h.flap_count then last else platform.show h.flap_count
  ]

  number_or_dash : Option ℕ → String
  number_or_dash none = "—"
  number_or_dash (some n) = platform.show n

  speed_val : InterfaceHealth → String
  speed_val h = elim h.last_speed_change [
    | none ↦ platform.show h.speed_change_count
    | some (from, to) ↦
        let last = join "" (
          platform.show h.speed_change_count
          ∷ " ("
          ∷ number_or_dash from
          ∷ "→"
          ∷ platform.show to
          ∷ " Mb/s)"
          ∷ []) in
        if ltb 0 h.speed_change_count then last else platform.show h.speed_change_count
  ]

  window_label : String → ℕ → String → String
  window_label name window end = join "" (name ∷ human_duration platform window ∷ end ∷ [])

  rate_or_dash : Option ℕ → String
  rate_or_dash none = "—"
  rate_or_dash (some bps) = format_bitrate platform bps

  percent_or_dash : Option ℕ → String
  percent_or_dash none = "—"
  percent_or_dash (some pct) = str_append (platform.show pct) "%"

  -- The rows under `if (h)`.
  unfoldable pub health_rows : Interface → InterfaceHealth → List Row
  unfolding counter_val in_last flap_val speed_val window_label number_or_dash rate_or_dash
      percent_or_dash group_thousands human_duration format_bitrate join
  health_rows iface h =
      let cw = h.counter_window_secs in
      let fw = h.flap_window_secs in
      marked "Outgoing discards" (counter_val cw iface.out_discards h.discards) h.discards_high
        warn_text
      ++ (marked "Input errors" (counter_val cw iface.in_errors h.in_errors) (ltb 0 h.in_errors)
            warn_text
          ++ (marked "Output errors" (counter_val cw iface.out_errors h.out_errors)
                (ltb 0 h.out_errors) warn_text
              ++ (marked (window_label "Link recoveries (last " fw ")") (flap_val h) h.flapping
                    bad_text
                  ++ (marked (window_label "Speed changes (last " fw ")") (speed_val h)
                        (ltb 0 h.speed_change_count) warn_text
                      ++ (marked (window_label "Peak utilization (last " h.util_window_secs ")")
                            (percent_or_dash h.peak_utilization_pct) h.high_utilization warn_text
                          ++ (plain
                                (window_label "Throughput in (" h.throughput_window_secs " avg)")
                                (rate_or_dash h.rx_bps_avg)
                              ++ (plain
                                    (window_label "Throughput out (" h.throughput_window_secs
                                      " avg)")
                                    (rate_or_dash h.tx_bps_avg)
                                  ++ marked "SNMP data"
                                      (if h.stale
                                        then "stale — device not responding"
                                        else "current")
                                      h.stale bad_text)))))))

  err_disabled_rows : Interface → List Row
  err_disabled_rows iface =
      let clear : String = " · manual clear required" in
      let recover : String = elim iface.err_disable_recover_secs [
        | none ↦ clear
        | some secs ↦
            let recovers = join "" (" · auto-recovers in " ∷ platform.show secs ∷ "s" ∷ []) in
            if ltb 0 secs then recovers else clear
      ] in
      let cause : String = elim iface.err_disable_cause [ none ↦ "unknown cause" | some c ↦ c ] in
      if iface.err_disabled
      then marked "Err-disabled" (str_append cause recover) true bad_text
      else []

  part : Bool → String → List String
  part b text = if b then text ∷ [] else []

  poe_parts : InterfacePoe → List String
  unfolding poe_status_label part
  poe_parts poe =
      let drawn : List String = elim (format_watts platform poe.power_mw) [
        | none ↦ []
        | some watts ↦ str_append watts " drawn" ∷ []
      ] in
      let class : List String = elim poe.poe_class [
        | none ↦ []
        | some n ↦ str_append "class " (platform.show n) ∷ []
      ] in
      let priority : List String = elim poe.priority [
        | none ↦ []
        | some p ↦ if str_eq p "" then [] else str_append p " priority" ∷ []
      ] in
      (poe_status_label poe.status ∷ [])
      ++ (drawn ++ (class ++ (part (not poe.admin_enabled) "admin disabled" ++ priority)))

  poe_rows : Option InterfacePoe → List Row
  unfolding poe_parts join
  poe_rows none = []
  poe_rows (some poe) = plain "PoE" (join " · " (poe_parts poe))

  octet_rows : String → Option ℕ → List Row
  octet_rows name none = []
  octet_rows name (some octets) = plain name (format_bytes platform octets)

  mbps_text : Option ℕ → String
  mbps_text none = "—"
  mbps_text (some s) = str_append (platform.show s) " Mb/s"

  media_rows : Option String → List Row
  media_rows none = []
  media_rows (some media) =
      if str_eq media "" then [] else plain "Media" (media_label platform media)

  neighbor_rows : Interface → List Row
  neighbor_rows iface = elim iface.connected_to [
    | some c ↦ plain "Connected to" (join ":" (c.fqdn ∷ c.interface ∷ []))
    | none ↦ elim iface.cdp_neighbor [
      | none ↦ []
      | some n ↦ plain "CDP neighbor" (cdp_neighbor_text n)
    ]
  ]

  -- The rows behind them.
  unfoldable pub fact_rows : Interface → List Row
  unfolding err_disabled_rows row_of_text up_text poe_rows octet_rows mbps_text media_rows
      neighbor_rows format_bytes media_label cdp_neighbor_text format_watts
  fact_rows iface =
      let admin : List Row = elim iface.admin_up [
        | none ↦ []
        | some up ↦ plain "Admin status" (if up then "up" else "down")
      ] in
      let override : List Row = elim iface.speed_override [
        | none ↦ []
        | some s ↦ plain "Speed override" (mbps_text (some s))
      ] in
      let polling : String = elim iface.polling_enabled [
        | none ↦ "enabled"
        | some polls ↦ if polls then "enabled" else "disabled"
      ] in
      plain "ifIndex" (platform.show iface.index)
      ++ (plain "Oper status" (up_text iface.up)
          ++ (admin
              ++ (err_disabled_rows iface
                  ++ (plain "Type" iface.interface_type
                      ++ (media_rows iface.media
                          ++ (poe_rows iface.poe
                              ++ (plain "Speed" (mbps_text iface.speed)
                                  ++ (override
                                      ++ (octet_rows "Received (total)" iface.in_octets
                                          ++ (octet_rows "Transmitted (total)" iface.out_octets
                                              ++ (row_of_text "Port-channel" iface.port_channel
                                                  ++ (row_of_text "Alias" iface.alias
                                                      ++ (row_of_text "Description"
                                                            iface.description
                                                          ++ (neighbor_rows iface
                                                            ++ plain "Polling" polling))))))))))))))

  unfoldable pub detail_rows : Interface → List Row
  unfolding health_rows fact_rows
  detail_rows iface =
      let facts = fact_rows iface in
      elim iface.health [ none ↦ facts | some h ↦ health_rows iface h ++ facts ]
