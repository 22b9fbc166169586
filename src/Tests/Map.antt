-- ===== src/Tests/Map.antt =====
-- The theorems on the graph and the page, at concrete inputs.
use jaspy.Weathermap.Device.Groups.{leads_to}
use jaspy.Weathermap.DeviceGraph.Search.{listed, listed-find_devices_by_name}
use jaspy.Weathermap.DeviceGraph.Statistics.{entry, batch_octets, batch_speeds}
use jaspy.Weathermap.DeviceGraph.BatchLaws.{
  last_metric, toward, of_interface, or_before, rate, speed_of, batch_octets-entry,
  batch_speeds-entry,
}
use jaspy.Weathermap.DeviceGraph.Drawable.{AllDrawable}
use jaspy.Weathermap.DeviceGraph.Groups.{Closed, update_topology_data-AllDrawable}
use jaspy.Weathermap.DeviceGraph.Keeps.{SameMap}
use jaspy.Weathermap.App.Keeps.{step-SameMap}
use jaspy.Weathermap.App.Running.{run-keeps_running}
use jaspy.Prelude.{
  ℕ, ◌+◌, ◌*◌, ◌≤◌, none, [], has, get, ◌≡◌, refl, true, done, arith, eq_iff, ◌&&◌, str_eq,
}
use jaspy.Weathermap.Device.Draw
use jaspy.Weathermap.DeviceGraph
use jaspy.Weathermap.DeviceGraph.{Map}
use jaspy.Weathermap.DeviceGraph.Membership.{has-update_topology_data}
use jaspy.Weathermap.DeviceGraph.Linked.{AllLinked, update_topology_data-AllLinked}
use jaspy.Weathermap.App.{run, tick, step}
use jaspy.Weathermap.App.Invariant.{update_animation-run}
use jaspy.Weathermap.App.Loop.{fetch_run, fetch_run-topology, count, is_topology}
use jaspy.Tests.Sample.{
  whole_numbers, vectors, window, config, matches, world, two_switches, half_link, timers, app,
  two_on_map, two_app, events, closed_events, frames, octets,
}

update_animation-run_example :
    (r : Map ℕ) × (DeviceGraph.update_animation config (run config matches events app).map ≡ done r)
update_animation-run_example = update_animation-run config matches events app refl

update_topology_data-AllLinked_example :
    AllLinked (DeviceGraph.update_topology_data half_link two_on_map).1
update_topology_data-AllLinked_example = update_topology_data-AllLinked half_link two_on_map

has-update_topology_data_example :
    has "b.lan" (DeviceGraph.update_topology_data half_link two_on_map).1 ≡ has "b.lan" half_link
has-update_topology_data_example = has-update_topology_data "b.lan" half_link two_on_map

fetch_run-topology_example : 0 + count is_topology (fetch_run frames timers).1 * 60001 ≤ 125000
fetch_run-topology_example =
    fetch_run-topology frames timers 125000 (omega arith, (omega arith, (omega arith, tt)))
      (omega arith)

two_switches-Closed : Closed two_switches
unfolding leads_to get
two_switches-Closed =
    (λ j h. ground (arith, eq_iff "b.lan" j), (λ j h. ground (arith, eq_iff "a.lan" j), tt))

run-keeps_running_example : (run config matches closed_events app).running ≡ true
run-keeps_running_example =
    run-keeps_running config matches closed_events app refl refl
      (two_switches-Closed, (tt, (tt, (tt, tt))))

update_topology_data-AllDrawable_example :
    AllDrawable (DeviceGraph.update_topology_data two_switches (world, [])).1
update_topology_data-AllDrawable_example =
    update_topology_data-AllDrawable two_switches (world, []) two_switches-Closed

octets_of_an_entry :
    ((entry {S = ℕ} "a.lan" "p1" (batch_octets octets [])).rx_mbps
      ≡ or_before rate (last_metric (toward "a.lan" "p1" "rx") octets) none)
    × ((entry {S = ℕ} "a.lan" "p1" (batch_octets octets [])).tx_mbps
        ≡ or_before rate (last_metric (toward "a.lan" "p1" "tx") octets) none)
unfolding get
octets_of_an_entry = batch_octets-entry {S = ℕ} "a.lan" "p1" octets []

speeds_of_an_interface :
    ((entry {S = ℕ} "a.lan" "p1" (batch_speeds octets [])).speed_mbps
      ≡ or_before speed_of (last_metric (of_interface "a.lan" "p1") octets) none)
    × ((entry {S = ℕ} "a.lan" "p1" (batch_speeds octets [])).rx_mbps ≡ none)
    × ((entry {S = ℕ} "a.lan" "p1" (batch_speeds octets [])).tx_mbps ≡ none)
unfolding get
speeds_of_an_interface = batch_speeds-entry {S = ℕ} "a.lan" "p1" octets []

step-SameMap_example : SameMap two_on_map.1 (step config matches (tick 100) two_app).map.1
step-SameMap_example = step-SameMap config matches (tick 100) two_app refl

names_of_a_search :
    listed "a.lan" (DeviceGraph.find_devices_by_name str_eq "a.lan" two_on_map.1)
    ≡ (has "a.lan" two_on_map.1 && str_eq "a.lan" "a.lan")
names_of_a_search = listed-find_devices_by_name str_eq "a.lan" "a.lan" two_on_map.1
