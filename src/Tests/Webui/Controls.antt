-- ===== src/Tests/Webui/Controls.antt =====
-- nexus/webui/src/pages/DeviceDetail.tsx, Discovery.tsx, STP.tsx, Dashboard.tsx, ClientLocations.tsx
-- and components: the controls and what they show at sample values.
use jaspy.Prelude.{
  All, String, ℕ, true, false, none, some, List, [], ◌∷◌, length, ◌≡◌, ◌≤◌, refl, get, put, has,
}
use jaspy.Webui.Text.{split}
use jaspy.Webui.Text.Split.{has_char}
use jaspy.Webui.DeviceTypes.{Interface}
use jaspy.Webui.DeviceDetail.Controls.{
  initial, on_message, type_filter, visible_interfaces, device_query, devices_query, summary_query,
}
use jaspy.Webui.Tables.{by_poe}
use jaspy.Webui.DeviceDetail.Controls.Sorting.{select_value, on_select}
use jaspy.Webui.DeviceDetail.Controls.Chips.{Accounts, type_filter-visible}
use jaspy.Webui.Discovery.{DiscoveryConfig, to_form, from_form}
use jaspy.Webui.Discovery.Settings.{IsHeld, from_form-settings}
use jaspy.Webui.Discovery.Page
use jaspy.Webui.Discovery.Page.{
  config_saved, type_fqdn, press_run, submit_config, status_answer, set_field, submit_device, step,
  run,
}
use jaspy.Webui.Discovery.Page.Saved.{run-saved_again}
use jaspy.Webui.Client.Calls.{put_discovery_config}
use jaspy.Webui.StpPage
use jaspy.Webui.StpPage.{
  open_mark_form, confirm_mark, press_unmark, mark_settled, opened, summary_answer, choose,
  first_vlan,
}
use jaspy.Webui.StpPage.Pending.{run-one_pending}
use jaspy.Webui.StpPage.Default.{vlan_param, run-vlan}
use jaspy.Webui.Overview.{short_ago, can_run}
use jaspy.Webui.Badges.{err_disabled_badge}
use jaspy.Webui.App.Header.{nav, routes}
use jaspy.Webui.DeviceDetail.Bundles.{port_channel_warning_text}
use jaspy.Tests.Webui.Browser.{browser, browser-Rearranges, browser-TrimsSpace}
use jaspy.Tests.Webui.Device.{port, ports}

the_select : select_value (on_select (by_poe, false) initial) ≡ "poe:desc"
unfolding select_value on_select
the_select = refl

abbrev with_a_vlan : List Interface
with_a_vlan = record port { name = "vl1"; interface_type = "propVirtual" } ∷ ports

without_vlans : length (visible_interfaces browser with_a_vlan initial) ≡ 6
unfolding visible_interfaces browser
without_vlans = refl

type_filter-visible_example :
    Accounts
      (type_filter browser with_a_vlan initial)
      (length (visible_interfaces browser with_a_vlan initial))
      7
type_filter-visible_example = type_filter-visible browser browser-Rearranges initial with_a_vlan

abbrev only_vlans : List Interface
only_vlans = record port { name = "vl1"; interface_type = "propVirtual" } ∷ []

-- The only type is hidden, and there is no chip to show it.
none_shown :
    (type_filter browser only_vlans initial ≡ none)
    × (length (visible_interfaces browser only_vlans initial) ≡ 0)
unfolding type_filter visible_interfaces browser get put
none_shown = (refl, refl)

a_ping_change :
    on_message "sw1.lan" (some "pingChange")
    ≡ device_query "sw1.lan" ∷ devices_query ∷ summary_query ∷ []
unfolding on_message
a_ping_change = refl

abbrev settings : DiscoveryConfig
settings = record {
  root_device = some "core.example.net";
  community = none;
  dns_domains = "example.net" ∷ "example.org" ∷ [];
  ignore = "lab1" ∷ [];
  remap = ("sw1", "switch1") ∷ ("sw2", "") ∷ [];
  topology_stable = true;
  periodic_enabled = false;
  interval_secs = 3600;
}

settings-IsHeld : IsHeld browser settings
unfolding browser has_char get
settings-IsHeld = record {
  root_device = (refl, refl);
  community = tt;
  dns_domains = (
    record { whole = refl; trimmed = refl; filled = refl },
    (record { whole = refl; trimmed = refl; filled = refl }, tt),
  );
  ignore = (record { whole = refl; trimmed = refl; filled = refl }, tt);
  remap = (
    (record { whole = refl; trimmed = refl; filled = refl }, refl, refl),
    ((record { whole = refl; trimmed = refl; filled = refl }, refl, refl), tt),
  );
  sources = (refl, (refl, tt));
}

from_form-settings_example : from_form browser (to_form settings) ≡ settings
from_form-settings_example = from_form-settings browser settings browser-TrimsSpace settings-IsHeld

run-saved_again_example :
    (step browser submit_config
      (run browser (config_saved settings ∷ type_fqdn "sw9" ∷ []) Page.initial)).calls
    ≡ put_discovery_config settings ∷ []
unfolding run
run-saved_again_example =
    run-saved_again browser settings (type_fqdn "sw9" ∷ []) Page.initial browser-TrimsSpace
      settings-IsHeld (tt, tt) refl

abbrev two_vlans : List ℕ
two_vlans = 10 ∷ 20 ∷ []

abbrev answers : List StpPage.Event
answers = summary_answer two_vlans ∷ choose "from" "sw1" ∷ summary_answer (20 ∷ []) ∷ []

-- The default, and a choice that another answer leaves.
run-vlan_example :
    (vlan_param (StpPage.run browser (λ v. 0) answers (opened [])) ≡ some (browser.show 10))
    × (vlan_param (StpPage.run browser (λ v. 0) (choose "vlan" "20" ∷ answers) (opened []))
        ≡ some "20")
unfolding first_vlan get
run-vlan_example =
    run-vlan browser (λ v. 0) [] (opened []) "20" answers refl refl (tt, (refl, (tt, tt)))

abbrev marks : List StpPage.Event
marks =
    open_mark_form "sw1"
    ∷ confirm_mark "sw1"
    ∷ press_unmark "sw2"
    ∷ mark_settled true
    ∷ press_unmark "sw2"
    ∷ []

-- The first press on the second button comes while the mark is pending.
two_requests : length (StpPage.run browser (λ v. 10) marks (opened [])).calls ≡ 2
unfolding StpPage.run browser
two_requests = refl

run-one_pending_example : length (StpPage.run browser (λ v. 10) marks (opened [])).calls ≤ 2
run-one_pending_example = run-one_pending browser (λ v. 10) [] marks

some_minutes : short_ago browser 1000000 400000 ≡ "10m ago"
unfolding short_ago browser
some_minutes = refl

without_a_community : can_run false false (some settings) ≡ false
unfolding can_run
without_a_community = refl

an_empty_cause : (err_disabled_badge (some "")).text ≡ "err-disabled"
unfolding err_disabled_badge
an_empty_cause = refl

-- Each link of the sidebar has a page.
links_have_pages : All (λ (link : String × String). has link.0 routes ≡ true) nav
unfolding get
links_have_pages = (refl, (refl, (refl, (refl, (refl, (refl, (refl, (refl, tt))))))))

a_channelized_port :
    port_channel_warning_text "member-not-bundled:et-0/0/1:2"
    ≡ "et-0/0/1: configured but not bundled"
unfolding port_channel_warning_text split
a_channelized_port = refl
