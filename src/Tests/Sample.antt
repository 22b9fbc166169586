-- ===== src/Tests/Sample.antt =====
-- Whole numbers in the place of doubles, a library of vectors over them, and a map of two devices.
use jaspy.Weathermap.Keyboard.{Key, KeyEvent, key_down, key_up}
use jaspy.Weathermap.Effect.{text_effect, new_text_effect}
use jaspy.Weathermap.DeviceGraph.Statistics.{Metric}
use jaspy.Weathermap.Device.Status.{DeviceStatus, set_status, PositionData}
use jaspy.Weathermap.Device.Input.{Modifiers}
use jaspy.Weathermap.LinkGroup.{LinkGroup, LinkUpdate}
use jaspy.Weathermap.Link.{Link}
use jaspy.Weathermap.Device.{Device, new_device}
use jaspy.Prelude.{
  ℕ, ◌+◌, ◌-◌, ◌*◌, ◌/◌, Bool, true, false, String, none, some, List, [], ◌∷◌, Dict, ltb, leb, ◌==◌,
  not, pos, negsuc, ℤ, if◌then◌else◌, state,
}
use jaspy.Weathermap.Numbers.{Double, Victor, Screen, Vec, vec}
use jaspy.Weathermap.Config.{Config, config_dist}
use jaspy.Weathermap.Interface.{InterfaceData, new_interface}
use jaspy.Weathermap.World.{World, Globals}
use jaspy.Weathermap.Device.Topology.{DeviceData}
use jaspy.Weathermap.DeviceGraph
use jaspy.Weathermap.LinkGroup
use jaspy.Weathermap.DeviceGraph.{Map}
use jaspy.Weathermap.App.{App, Timers, Event, topology_arrived, tick, searched}

abbrev whole : ℤ → ℕ
whole (pos n) = n
whole (negsuc n) = 0

instance abbrev pub whole_numbers : Double ℕ
whole_numbers = record {
  ratio = λ n d. n / d;
  of_int = whole;
  nan = 0;
  pi = 3;
  add = λ a b. a + b;
  sub = λ a b. a - b;
  mul = λ a b. a * b;
  div = λ a b. a / b;
  neg = λ a. 0;
  pow = λ a b. a;
  log10 = λ a. 0;
  acos = λ a. 0;
  sign = λ a. if a == 0 then 0 else 1;
  abs = λ a. a;
  min = λ a b. if ltb b a then b else a;
  lt = ltb;
  le = leb;
  eq = ◌==◌;
  truthy = λ a. not (a == 0);
  round_int = λ a. some (pos a);
  floor_int = λ a. some (pos a);
  round = λ a. a;
  to_fixed2 = λ a. "0.00";
}

instance abbrev pub vectors : Victor ℕ
vectors = record {
  add = λ a b. vec (a.x + b.x) (a.y + b.y);
  subtract = λ a b. vec (a.x - b.x) (a.y - b.y);
  multiply = λ a b. vec (a.x * b.x) (a.y * b.y);
  normalize = λ a. a;
  rotate_deg = λ a d. a;
  invert = λ a. vec 0 0;
  dot = λ a b. a.x * b.x + a.y * b.y;
  cross = λ a b. a.x * b.y - a.y * b.x;
  length = λ a. a.x + a.y;
  horizontal_angle = λ a. 0;
}

instance abbrev pub window : Screen ℕ
window = record { text_width = λ s. 40; text_height = λ s. 12; to_world = λ p. p }

abbrev pub config : Config ℕ
config = config_dist

-- A name matches itself only.
abbrev pub matches : String → String → Bool
matches fqdn name = false

abbrev pub globals : Globals
globals = record {
  request_graphics_update = true;
  request_animation_update = true;
  position_updates_frozen = false;
  request_pixi_frame = false;
  animation_update_requested = false;
  graphics_update_requested = false;
  screen_width = 1600;
  screen_height = 900;
}

abbrev pub frozen : Globals
frozen = record globals { position_updates_frozen = true }

abbrev pub world : World ℕ
world = record {
  heap = λ r. new_interface "unused" "unused";
  next_ref = 0;
  next_object = 3;
  calls = [];
  requests = [];
  globals = globals;
  random = λ n. n;
  draws = 0;
}

abbrev pub port : String → String → InterfaceData
port fqdn interface = record {
  connected_to = some (record { fqdn = fqdn; interface = interface });
  members = [];
}

-- Two switches, each connected to the other.
abbrev pub two_switches : Dict DeviceData
two_switches =
    ("a.lan", record { interfaces = ("p1", port "b.lan" "p2") ∷ [] })
    ∷ ("b.lan", record { interfaces = ("p2", port "a.lan" "p1") ∷ [] })
    ∷ []

-- A switch that is connected to one that is not on the map.
abbrev pub half_link : Dict DeviceData
half_link = ("a.lan", record { interfaces = ("p1", port "b.lan" "p2") ∷ [] }) ∷ []

abbrev pub timers : Timers
timers = record {
  last_topology_update = 0;
  last_data_update = 0;
  last_status_update = 0;
  last_graphics_update = 0;
  last_animation_update = 0;
  last_position_update = 0;
}

abbrev pub app : App ℕ
app = record { timers = timers; map = (world, []); fetches = []; renders = 0; running = true }

abbrev pub a_lan : Device ℕ
a_lan = (new_device "a.lan" world).1

-- The map after the first topology.
abbrev pub two_on_map : Map ℕ
two_on_map = DeviceGraph.update_topology_data two_switches (world, [])

abbrev pub two_app : App ℕ
two_app = record app { map = two_on_map }

abbrev pub placed : Device ℕ
placed = record a_lan { position = vec 10 20 }

abbrev pub place_known : PositionData ℕ
place_known = record { x = 10; y = 20; super_node = false; expanded_by_default = false }

abbrev pub events : List (Event ℕ)
events = topology_arrived two_switches ∷ tick 100 ∷ topology_arrived half_link ∷ []

abbrev pub closed_events : List (Event ℕ)
closed_events = topology_arrived two_switches ∷ tick 100 ∷ searched "a.lan" ∷ tick 70000 ∷ []

-- Frames at 30 s, 61 s and 125 s.
abbrev pub frames : List (ℕ × Globals)
frames = (30000, globals) ∷ (61000, globals) ∷ (125000, globals) ∷ []

-- A link at an interface that has reported nothing.
abbrev pub quiet : Link
quiet = record {
  remote_interface_name = "p2";
  graphics = none;
  dirty = false;
  source_interface = 0;
  label = 3;
  show_label = false;
}

abbrev pub announced : Device ℕ
announced = record a_lan {
  attached_effects =
      text_effect (new_text_effect (vec 20 0) "superNodeByConfig=true" 0xff00ff 3 10) ∷ [];
}

-- Two reports of received octets for one interface.
abbrev pub octets : List Metric
octets =
    record { fqdn = "a.lan"; name = "p1"; direction = "rx"; value = "1000000" }
    ∷ record { fqdn = "a.lan"; name = "p1"; direction = "rx"; value = "2000000" }
    ∷ []

abbrev pub to_p2 : Dict LinkUpdate
to_p2 =
    ("p2", record { connection = record { fqdn = "b.lan"; interface = "p2" }; interface = 0 }) ∷ []

-- The same cable, from another interface.
abbrev pub moved_to_p2 : Dict LinkUpdate
moved_to_p2 =
    ("p2", record { connection = record { fqdn = "b.lan"; interface = "p2" }; interface = 1 }) ∷ []

abbrev pub group : LinkGroup ℕ
group = (LinkGroup.new_link_group "a.lan" "b.lan" world).1

abbrev pub linked_group : LinkGroup ℕ
linked_group = record group { grouped_links = ("p2", quiet) ∷ [] }

abbrev pub shift : Modifiers
shift = record { shift_key = true; ctrl_key = false; alt_key = false }

abbrev pub points : List (Vec ℕ)
points = vec 10 20 ∷ vec 30 40 ∷ []

abbrev pub down : DeviceStatus
down = record { state = some false; interfaces = [] }

abbrev pub known_up : Device ℕ
known_up = record a_lan { status = some true }

abbrev pub after_first : World ℕ × Device ℕ
after_first = state (set_status 5 down world a_lan)

-- The page with one switch, which has a link group for a neighbour that is not on the map.
abbrev pub dangling : Device ℕ
dangling = record a_lan { link_groups = ("b.lan", group) ∷ []; super_node = some true }

abbrev pub half_app : App ℕ
half_app = record app { map = (world, ("a.lan", dangling) ∷ []) }

-- The space bar, with both handlers set.
abbrev pub space_bar : Key
space_bar = record { code = 32; is_down = false; is_up = true; press = true; release = true }

abbrev pub typed : List KeyEvent
typed = key_down 32 ∷ key_down 32 ∷ key_up 32 ∷ key_down 65 ∷ key_down 32 ∷ []
