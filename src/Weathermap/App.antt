-- ===== src/Weathermap/App.antt =====
-- weathermap/js/app.js: the timers of the main loop, the answers of the servers and the events of the
-- page, each one step. An answer may arrive between any two other steps.
pub mod Keeps
pub mod Invariant
pub mod Running
pub mod Loop
use jaspy.Prelude.{
  ℕ, ◌+◌, Bool, true, false, not, ◌||◌, ◌&&◌, String, List, [], ◌∷◌, ◌++◌, Dict, if◌then◌else◌, ltb,
  str_eq, Outcome, done, threw, ◌>>=◌, state,
}
use jaspy.Weathermap.Numbers.{Double, Victor, Screen, Vec}
use jaspy.Weathermap.Config.{Config}
use jaspy.Weathermap.World.{Globals}
use jaspy.Weathermap.Device.Topology.{DeviceData}
use jaspy.Weathermap.Device.Status
use jaspy.Weathermap.Device.Status.{DeviceStatus, PositionData}
use jaspy.Weathermap.Device.Input
use jaspy.Weathermap.Device.Input.{Modifiers}
use jaspy.Weathermap.DeviceGraph
use jaspy.Weathermap.DeviceGraph.{Batch, Map, with_device}
use jaspy.Weathermap.DeviceGraph.Statistics.{
  Metric, batch_octets, batch_speeds, stale_events, commit_entries,
}

-- The requests that a frame starts.
pub data Fetch : Type 0 where
  topology statistics status position : Fetch

pub record Timers : Type 0 where
  pub last_topology_update : ℕ
  pub last_data_update : ℕ
  pub last_status_update : ℕ
  pub last_graphics_update : ℕ
  pub last_animation_update : ℕ
  pub last_position_update : ℕ

-- `running` is false once a frame has thrown: `mainLoop` then never asks for another.
pub record App (S : Type 0) : Type 0 where
  pub timers : Timers
  pub map : Map S
  pub fetches : List Fetch
  pub renders : ℕ
  pub running : Bool

-- An answer of Prometheus: its status and its result vector.
pub record Response : Type 0 where
  pub status : String
  pub result : List Metric

-- Whether more than so many milliseconds have passed.
abbrev pub due : ℕ → ℕ → ℕ → Bool
due period last now = ltb (last + period) now

-- The map and the timers after a part of a frame, and whether the part asks for a drawing.
pub record Frame (S : Type 0) : Type 0 where
  pub map : Map S
  pub timers : Timers
  pub ticker_update : Bool

-- The four timers that start requests.
unfoldable pub start_fetches : ℕ → Globals → Timers → Timers × List Fetch
start_fetches now g t =
    let topo = due 60000 t.last_topology_update now in
    let stat = due 10000 t.last_data_update now in
    let stts = due 1000 t.last_status_update now in
    let posn = due 1000 t.last_position_update now && not g.position_updates_frozen in
    (
      record t {
        last_topology_update = if topo then now else t.last_topology_update;
        last_data_update = if stat then now else t.last_data_update;
        last_status_update = if stts then now else t.last_status_update;
        last_position_update = if posn then now else t.last_position_update;
      },
      (if topo then topology ∷ [] else [])
          ++ ((if stat then statistics ∷ [] else [])
              ++ ((if stts then status ∷ [] else []) ++ (if posn then position ∷ [] else []))),
    )

module _ {S : Type 0} where
  abbrev pub globals_of : Map S → Globals
  globals_of m = m.0.globals

  abbrev pub set_globals : Globals → Map S → Map S
  set_globals g (w, devices) = (record w { globals = g }, devices)

  abbrev pub clear_graphics : Map S → Map S
  clear_graphics m = set_globals (record (globals_of m) { request_graphics_update = false }) m

  abbrev pub clear_animation : Map S → Map S
  clear_animation m = set_globals (record (globals_of m) { request_animation_update = false }) m

  abbrev pub clear_pixi : Map S → Map S
  clear_pixi m = set_globals (record (globals_of m) { request_pixi_frame = false }) m

  abbrev pub with_map : (Map S → Frame S) → Outcome (Map S) → Outcome (Frame S)
  with_map f (done m) = done (f m)
  with_map f (threw m) = threw (f m)

  -- The state after a frame. An exception leaves `mainLoop` before it asks for the next frame.
  abbrev pub finish : App S → List Fetch → Outcome (Frame S) → App S
  finish a started (threw f) = record a {
    timers = f.timers;
    map = f.map;
    fetches = a.fetches ++ started;
    running = false;
  }
  finish a started (done f) = record a {
    timers = f.timers;
    map = f.map;
    fetches = a.fetches ++ started;
    renders = if f.ticker_update then a.renders + 1 else a.renders;
  }

  module _ ⦃num : Double S⦄ ⦃vic : Victor S⦄ ⦃screen : Screen S⦄ where
    unfoldable pub graphics_part : Config S → ℕ → Frame S → Outcome (Frame S)
    graphics_part config now f =
        let t = record (f.timers) { last_graphics_update = now } in
        if due 10000 f.timers.last_graphics_update now || (globals_of f.map).request_graphics_update
        then with_map (λ m. record { map = m; timers = t; ticker_update = true })
            (DeviceGraph.update_graphics config now (clear_graphics f.map))
        else done f

    unfoldable pub animation_part : Config S → ℕ → Frame S → Outcome (Frame S)
    animation_part config now f =
        let t = record (f.timers) { last_animation_update = now } in
        if due 10000 f.timers.last_animation_update now
          || (globals_of f.map).request_animation_update
        then with_map (λ m. record { map = m; timers = t; ticker_update = true })
            (DeviceGraph.update_animation config (clear_animation f.map))
        else done f

    unfoldable pub pixi_part : Frame S → Frame S
    pixi_part f =
        if (globals_of f.map).request_pixi_frame
        then record f { map = clear_pixi f.map; ticker_update = true }
        else f

    unfoldable pub parts : Config S → ℕ → Frame S → Outcome (Frame S)
    parts config now f = do
      f' ← graphics_part config now f
      f'' ← animation_part config now f'
      done (pixi_part f'')

    -- `frame`, within `mainLoop`.
    unfoldable pub frame : Config S → ℕ → App S → App S
    frame config now a =
        let (t, started) = start_fetches now (globals_of a.map) a.timers in
        finish a started
          (parts config now (record { map = a.map; timers = t; ticker_update = false }))

module _ {S : Type 0} where
  -- The two flags that `dataUpdate` and `positionUpdate` set, which no frame reads.
  unfoldable pub request_unread : Map S → Map S
  request_unread m =
      set_globals
        (record (globals_of m) {
          animation_update_requested = true;
          graphics_update_requested = true;
        })
        m

abbrev pub is_error : Response → Bool
is_error r = str_eq r.status "error"

abbrev pub is_success : Response → Bool
is_success r = str_eq r.status "success"

module _ {S : Type 0} ⦃num : Double S⦄ where
  -- The batch of two answers; one that is no success changes nothing.
  unfoldable pub batch_of : Response → Response → Batch S
  batch_of speed octets =
      let batch : Batch S = if is_success speed then batch_speeds speed.result [] else [] in
      if is_success octets then batch_octets octets.result batch else batch

  unfoldable pub stale_events_of : Response → Map S → Outcome (Map S)
  stale_events_of r m = if is_success r then stale_events m else done m

  -- `dataUpdate`, when its four answers are there.
  unfoldable pub data_update :
      ℕ → Response → Response → Response → Response → Map S → Outcome (Map S)
  unfolding batch_of stale_events_of request_unread
  data_update now device_up interface_up speed octets m =
      if is_error device_up || (is_error interface_up || (is_error speed || is_error octets))
      then done m
      else (do
        m' ← stale_events_of speed m
        m'' ← stale_events_of octets m'
        m''' ← commit_entries now (batch_of speed octets) m''
        done (request_unread m'''))

  unfoldable pub position_update : List (String × PositionData S) → Map S → Outcome (Map S)
  unfolding request_unread
  position_update info m = do m' ← DeviceGraph.update_positions info m; done (request_unread m')

  -- The search form: `forEach` over the devices found.
  unfoldable pub highlight_all : List String → Map S → Outcome (Map S)
  highlight_all [] m = done m
  highlight_all (fqdn ∷ rest) m = with_device fqdn Status.highlight m >>= highlight_all rest

pub data Event (S : Type 0) : Type 0 where
  tick : ℕ → Event S
  topology_arrived : Dict DeviceData → Event S
  statistics_arrived : ℕ → Response → Response → Response → Response → Event S
  statuses_arrived : ℕ → Dict DeviceStatus → Event S
  positions_arrived : List (String × PositionData S) → Event S
  pressed : String → Modifiers → Event S
  released : String → Event S
  moved : String → Vec S → Event S
  position_put_done : Event S
  viewport_moved : Event S
  searched : String → Event S
  resized : ℕ → ℕ → Event S

module _ {S : Type 0} where
  abbrev pub on_map : App S → Outcome (Map S) → App S
  on_map a o = record a { map = state o }

module _ {S : Type 0} ⦃num : Double S⦄ ⦃vic : Victor S⦄ ⦃screen : Screen S⦄ (config : Config S)
    (matches : String → String → Bool) where
  unfoldable pub step : Event S → App S → App S
  step (tick now) a = if a.running then frame config now a else a
  step (topology_arrived data') a = record a { map = DeviceGraph.update_topology_data data' a.map }
  step (statistics_arrived now r1 r2 r3 r4) a = on_map a (data_update now r1 r2 r3 r4 a.map)
  step (statuses_arrived now info) a = on_map a (DeviceGraph.update_statuses now info a.map)
  step (positions_arrived info) a = on_map a (position_update info a.map)
  step (pressed fqdn m) a = on_map a (with_device fqdn (Input.press m) a.map)
  step (released fqdn) a = on_map a (with_device fqdn (λ w d. done (Input.release w d)) a.map)
  step (moved fqdn p) a = on_map a (with_device fqdn (λ w d. done (Input.move p w d)) a.map)
  step position_put_done a = record a { map = (Input.position_stored a.map.0, a.map.1) }
  step viewport_moved a = record a {
    map = set_globals (record (globals_of a.map) { request_pixi_frame = true }) a.map;
  }
  step (searched name) a =
      on_map a (highlight_all (DeviceGraph.find_devices_by_name matches name a.map.1) a.map)
  step (resized width height) a = record a {
    map =
        set_globals (record (globals_of a.map) { screen_width = width; screen_height = height })
          a.map;
  }

  unfoldable pub run : List (Event S) → App S → App S
  run [] a = a
  run (e ∷ es) a = run es (step e a)
