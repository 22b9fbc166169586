-- ===== src/Tests/Webui/Device.antt =====
-- nexus/webui/src/pages/DeviceDetail.tsx and api/client.ts at sample values: ports, health, the rows
-- of an interface and the calls of the API.
use jaspy.Prelude.{
  ℕ, suc, Bool, ◌||◌, true, false, not, none, some, List, [], ◌∷◌, length, ◌≡◌, refl, String, get,
  put, zero, ◌==◌, if◌then◌else◌,
}
use Prim.Native.Char.{Char, code}
use jaspy.Webui.Text.{split}
use jaspy.Webui.Text.Split.{has_char}
use jaspy.Webui.IssueTypes.{warn}
use jaspy.Webui.Issues.Order.{keep}
use jaspy.Webui.DeviceTypes.{Interface, InterfaceHealth}
use jaspy.Webui.DeviceDetail.Ports.{port_parts, summarize_ports, sfp_kind_from_descr, is_physical}
use jaspy.Webui.DeviceDetail.Ports.Counts.{parts_count, is_listed, port_parts-count}
use jaspy.Webui.DeviceDetail.Health.{
  health_lines, interface_health_badges, group_digits, text_length,
}
use jaspy.Webui.DeviceDetail.Health.Explained.{no_line-no_badge}
use jaspy.Webui.DeviceDetail.Health.Digits.{comma, concat, InThrees, group_digits-parts}
use jaspy.Webui.DeviceDetail.Units.{format_bytes}
use jaspy.Webui.DeviceDetail.Rows.{health_rows}
use jaspy.Webui.DeviceDetail.Rows.Marked.{any_marked, is_empty, badges-marked}
use jaspy.Webui.Client.Calls.{Encoding, device, path}
use jaspy.Webui.Client.Calls.Routes
use jaspy.Webui.Client.Calls.Routes.{Reader, dispatch, server_segments}
use jaspy.Tests.Webui.Browser.{browser, browser-Rearranges}

abbrev pub port : Interface
port = record {
  id = 1;
  index = 1;
  name = "Gi1/0/1";
  display_name = none;
  alias = some "";
  description = none;
  interface_type = "ethernetCsmacd";
  polling_enabled = none;
  speed_override = none;
  connected_to = none;
  cdp_neighbor = none;
  up = some true;
  speed = some 1000;
  admin_up = none;
  err_disabled = false;
  err_disable_cause = none;
  err_disable_recover_secs = none;
  in_octets = some 5242880;
  out_octets = none;
  in_errors = none;
  out_errors = none;
  out_discards = none;
  native_vlan = none;
  tagged_vlans = none;
  port_channel = none;
  health = none;
  media = some "copper";
  poe = none;
}

abbrev cage : Interface
cage = record port { name = "Te1/1/1"; media = some "sfp" }

abbrev seated : Interface
seated = record port { name = "Te1/1/2"; media = some "sfp: 1000BaseLX SFP" }

abbrev vlan_port : Interface
vlan_port = record port { name = "Vlan1"; interface_type = "propVirtual" }

abbrev uplink : Interface
uplink = record port { name = "port 5"; media = none; speed = some 2500 }

abbrev pub ports : List Interface
ports = port ∷ cage ∷ port ∷ vlan_port ∷ seated ∷ uplink ∷ []

a_summary :
    summarize_ports browser ports
    ≡ some "2 × 1G copper, 1 × 2.5G, 1 SFP slot (1 populated), 1 SFP+ slot"
unfolding summarize_ports browser get put
a_summary = refl

port_parts-count_example :
    parts_count (port_parts browser ports) ≡ length (keep is_listed (keep is_physical ports))
port_parts-count_example = port_parts-count browser browser-Rearranges ports

a_kind_of_optic : sfp_kind_from_descr "SFP-10GBase-LR" ≡ some "SFP+"
unfolding sfp_kind_from_descr
a_kind_of_optic = refl

abbrev flaky : InterfaceHealth
flaky = record {
  severity = some warn;
  flapping = false;
  flap_count = 0;
  last_flap_secs_ago = none;
  in_errors = 0;
  out_errors = 3;
  discards = 5512;
  discards_high = true;
  speed_change_count = 1;
  last_speed_change = some (some 1000, 100);
  peak_utilization_pct = none;
  high_utilization = false;
  rx_bps_avg = none;
  tx_bps_avg = none;
  stale = false;
  counter_window_secs = 300;
  flap_window_secs = 600;
  util_window_secs = 600;
  throughput_window_secs = 60;
}

lines_of_an_interface :
    health_lines browser flaky
    ≡ "5,512 outgoing discards in last 5 minutes" ∷ "0 input / 3 output errors in last 5 minutes"
      ∷ "speed renegotiated 1× in last 10 minutes (1000→100 Mb/s)" ∷ []
unfolding health_lines browser
lines_of_an_interface = refl

abbrev calm : InterfaceHealth
calm = record flaky {
  severity = none;
  out_errors = 0;
  discards = 0;
  discards_high = false;
  speed_change_count = 0;
}

no_badge_of_a_calm_interface : interface_health_badges calm ≡ []
unfolding health_lines
no_badge_of_a_calm_interface =
    no_line-no_badge browser calm
      (record { discards_counted = λ h. cc h; change_known = λ h. refl; peak_known = λ h. cc h })
      refl

badges-marked_example :
    is_empty (interface_health_badges flaky) ≡ not (any_marked (health_rows browser port flaky))
badges-marked_example = badges-marked browser port flaky refl

group_digits-parts_example :
    let parts = split comma (group_digits "1234567") in
    (concat parts ≡ "1234567") × InThrees (text_length "1234567") parts
unfolding has_char
group_digits-parts_example = group_digits-parts "1234567" (λ e. cc e) refl

five_mebibytes : format_bytes browser 5242880 ≡ "5.00 MiB"
unfolding format_bytes browser
five_mebibytes = refl

-- An encoding for tests: a percent sign for a slash, and numbers in tally marks.
without_slashes : String → String
without_slashes String.[] = String.[]
without_slashes (String.◌∷◌ c s) =
    String.◌∷◌ (if code c == b'/' then "%" else c) (without_slashes s)

tally : ℕ → String
tally zero = "0"
tally (suc n) = String.◌∷◌ "1" (tally n)

unfoldable encoding : Encoding
unfolding without_slashes tally
encoding = record { encode = λ s. without_slashes s; show = λ n. tally n }

-- Digits alone are an `i64` here, and any parts a path.
digits : String → Bool
digits String.[] = true
digits (String.◌∷◌ c s) =
    let others = digits s in if code c == b'0' || code c == b'1' then others else false

abbrev reader : Reader
reader = record { is_i64 = λ s. digits s; is_path_buf = λ parts. true }

-- A page's address is answered by the route of the web interface.
a_page : dispatch reader "GET" "/devices/core.lan" ≡ some Routes.spa
unfolding dispatch
a_page = refl

-- Without a name the path is that of another call: the list of the devices.
no_name_given : server_segments (path encoding (device "")) ≡ "api" ∷ "v1" ∷ "devices" ∷ []
unfolding server_segments path encoding
no_name_given = refl
