-- ===== src/Tests/Devices.antt =====
-- The theorems on devices, links and texts, at concrete inputs.
use jaspy.Weathermap.Keyboard.Laws.{presses, releases, held, handle_all-balance}
use jaspy.Weathermap.Keyboard.{handle_all}
use jaspy.Weathermap.Util.Hostname.{has_dot, hostname_from_fqdn-label}
use jaspy.Weathermap.Device.StatusLaws.{
  set_status_iff, set_status-status, update_statistics-returns_iff, check_stale_iff,
  update_weathermap_position-same,
}
use jaspy.Weathermap.Device.Status.{
  set_status, same_status, change_status, update_statistics, update_weathermap_position,
}
use jaspy.Weathermap.Device.Drag.{drag, dragged, drag-request}
use jaspy.Weathermap.LinkGroup.{LinkGroup, LinkUpdate}
use jaspy.Weathermap.LinkGroup.Laws.{has-grouped_links, update_topology_data-keeps_link}
use jaspy.Weathermap.Device.Groups.{leads_to, has-link_groups}
use jaspy.Weathermap.Device.Drawn.{GroupsKnown, update_graphics-returns_iff}
use jaspy.Weathermap.DeviceGraph.Statistics.{no_stats}
use jaspy.Prelude.{
  ℕ, ◌+◌, ◌*◌, ◌<◌, String, none, some, [], ◌∷◌, has, get, ◌≡◌, ◌≢◌, ◌↔◌, ◌⊎◌, refl, true, false,
  done, arith, All, ◌||◌, str_append, has_thrown,
}
use jaspy.Weathermap.World.{World}
use jaspy.Weathermap.Effect.{new_text_effect}
use jaspy.Weathermap.Link.{own_status, peer_status, is_up}
use jaspy.Weathermap.Link.Laws.{is_up_iff, Reported}
use jaspy.Weathermap.Util.{parse_hex, rgb_to_hex, hostname_from_fqdn}
use jaspy.Weathermap.Util.Hex.{parse_hex-rgb_to_hex}
use jaspy.Weathermap.Device.{Device, new_device, check_stale}
use jaspy.Weathermap.Device.Topology
use jaspy.Weathermap.Device.Draw
use jaspy.Weathermap.LinkGroup
use Prim.Native.Char.{char}
use jaspy.Weathermap.Device.Linked.{update_linkgroup_data-IsLinked}
use jaspy.Weathermap.Device.Fading.{effect_frames, effect_frames-FadesIn}
use jaspy.Weathermap.DeviceGraph.Linked.{AllLinked-empty}
use jaspy.Tests.Sample.{
  whole_numbers, vectors, window, config, world, port, a_lan, placed, place_known, quiet, announced,
  to_p2, moved_to_p2, group, linked_group, shift, points, down, known_up, after_first, typed,
  space_bar,
}

a_colour_and_back : parse_hex (rgb_to_hex {S = ℕ} 255 7 160) ≡ some (255 * 65536 + 7 * 256 + 160)
a_colour_and_back =
    parse_hex-rgb_to_hex {S = ℕ} 255 7 160 255 7 160 refl refl refl (omega arith) (omega arith)
      (omega arith)

a_quiet_link : (is_up 70000 world quiet ≡ true) ↔ (
    (Reported 70000 world quiet × (own_status world quiet ≡ some true))
    ⊎ ((¬ Reported 70000 world quiet) × (peer_status world quiet ≡ some true)))
a_quiet_link = is_up_iff 70000 world quiet

no_text_is_left : (effect_frames 101 (world, announced)).1.attached_effects ≡ []
unfolding new_text_effect
no_text_is_left = effect_frames-FadesIn 100 world announced (omega arith, tt)

update_graphics-returns_iff_example :
    ((r : World ℕ × Device ℕ) × (Draw.update_graphics config 5 [] world
          (Topology.update_linkgroup_data [] world a_lan).1
        ≡ done r))
    ↔ GroupsKnown [] (Topology.update_linkgroup_data [] world a_lan).1.link_groups
update_graphics-returns_iff_example =
    update_graphics-returns_iff config 5 [] world (Topology.update_linkgroup_data [] world a_lan).1
      (AllLinked-empty [] refl) (update_linkgroup_data-IsLinked [] world a_lan)

has-link_groups_example :
    has "b.lan"
      (Topology.update_topology_data
        (record { interfaces = ("p1", port "b.lan" "p2") ∷ [] })
        world
        a_lan).1.link_groups
    ≡ leads_to "b.lan" (("p1", port "b.lan" "p2") ∷ [])
has-link_groups_example =
    has-link_groups "b.lan" (record { interfaces = ("p1", port "b.lan" "p2") ∷ [] }) world a_lan

links_of_a_group :
    has "p2" (LinkGroup.update_topology_data to_p2 world group).1.grouped_links ≡ has "p2" to_p2
links_of_a_group = has-grouped_links "p2" to_p2 world group (refl, tt)

update_topology_data-keeps_link_example :
    get "p2" (LinkGroup.update_topology_data moved_to_p2 world linked_group).1.grouped_links
    ≡ some quiet
unfolding get
update_topology_data-keeps_link_example =
    update_topology_data-keeps_link "p2" quiet moved_to_p2 world linked_group (refl, tt) refl refl

a_drag_with_shift :
    (r : World ℕ × Device ℕ) × ((drag shift points world a_lan ≡ done r)
      × ((r.0.requests
            ≡ record {
              device_fqdn = a_lan.fqdn;
              x = (dragged points a_lan.position).x;
              y = (dragged points a_lan.position).y;
              super_node = a_lan.super_node_by_config;
              expanded_by_default = a_lan.expanded_by_default;
            }
              ∷ [])
          × ((r.1.position ≡ dragged points a_lan.position)
              × ((r.1.drag_info ≡ false) × (r.0.globals.position_updates_frozen ≡ true)))))
a_drag_with_shift = drag-request shift points world a_lan refl

set_status_iff_example : (has_thrown (set_status 5 down world known_up) ≡ true) ↔ (
    (known_up.status ≢ none)
    × ((same_status known_up.status down.state ≡ false) × (known_up.graphics ≡ none)))
set_status_iff_example = set_status_iff 5 down world known_up

a_reported_status :
    (after_first.1.status ≡ down.state)
    × ((after_first.1.last_update ≡ 5)
        × ((same_status a_lan.status down.state || after_first.1.graphics_dirty) ≡ true))
unfolding set_status change_status new_device
a_reported_status = set_status-status 5 down world a_lan after_first refl

update_statistics-returns_iff_example :
    ((r : World ℕ × Device ℕ) × (update_statistics 5 (("p9", no_stats) ∷ []) world a_lan ≡ done r))
    ↔ All (λ k. has k a_lan.interfaces ≡ true) ("p9" ∷ [])
update_statistics-returns_iff_example =
    update_statistics-returns_iff 5 (("p9", no_stats) ∷ []) world a_lan

staleness_of_a_device :
    ((check_stale 60001 a_lan).stale ≡ true) ↔ (a_lan.last_update + 60000 < 60001)
staleness_of_a_device = check_stale_iff 60001 a_lan

a_known_position : update_weathermap_position place_known world placed ≡ (world, placed)
unfolding new_device
a_known_position = update_weathermap_position-same place_known world placed refl refl refl

label_of_a_host :
    (hostname_from_fqdn "sw1" ≡ "sw1")
    × (hostname_from_fqdn (str_append "sw1" (String.◌∷◌ (char 46 _) "lan")) ≡ "sw1")
unfolding has_dot
label_of_a_host = hostname_from_fqdn-label "sw1" "lan" (char 46 _) refl refl

balance_of_a_key :
    presses (handle_all typed space_bar).1 + held space_bar
    ≡ releases (handle_all typed space_bar).1 + held (handle_all typed space_bar).0
balance_of_a_key =
    handle_all-balance typed space_bar (record { press = refl; release = refl; flags = refl })
