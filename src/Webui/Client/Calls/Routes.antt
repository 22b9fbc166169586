-- ===== src/Webui/Client/Calls/Routes.antt =====
-- nexus/src/main.rs: the routes that the server mounts at /api/v1 and /api/v1/discovery, and the one at
-- /. Each has the method, the path and the rank of its handler's attribute, in routes/api/v1.rs,
-- routes/dev/discovery.rs and routes/webui.rs. The paths of all other mounts begin with /dev or
-- /weathermap.
use jaspy.Prelude.{
  ℕ, Bool, true, false, not, ◌&&◌, String, Option, none, some, is_some, List, [], ◌∷◌, ◌++◌, str_eq,
  if◌then◌else◌,
}
use jaspy.Webui.Text.{split}
use jaspy.Webui.Issues.Order.{keep}

-- What the framework says of a parameter: whether a text is an `i64`, and whether the parts are a
-- `PathBuf`.
pub record Reader : Type 0 where
  pub is_i64 : String → Bool
  pub is_path_buf : List String → Bool

-- The functions that handle the requests.
pub data Handler : Type 0 where
  summary devices device_detail device_entity device_snmp_sessions device_vlan_poll : Handler
  vlans vlan_policy_set stp_summary stp_tree stp_expected_root_add stp_expected_root_remove :
      Handler
  issues issue_ack issue_unack issue_types issue_suppress issue_unsuppress : Handler
  device_create device_update device_delete clientlocations event_get event_put reset : Handler
  system_status system_polling_set system_perf system_env ws_logs : Handler
  discovery_run discovery_status discovery_get_config discovery_put_config spa : Handler

-- A part of a path: fixed, any text, an `i64`, or all parts that are left.
pub data Segment : Type 0 where
  literal : String → Segment
  text number rest : Segment

-- A route without a rank has a negative one.
pub record Route : Type 0 where
  pub handler : Handler
  pub verb : String
  pub pattern : List Segment
  pub rank : Option ℕ

abbrev v1 : String → List Segment → Handler → Route
v1 m parts h = record {
  handler = h;
  verb = m;
  pattern = literal "api" ∷ literal "v1" ∷ parts;
  rank = none;
}

abbrev one : String → String → Handler → Route
one m a = v1 m (literal a ∷ [])

abbrev two : String → String → String → Handler → Route
two m a b = v1 m (literal a ∷ literal b ∷ [])

abbrev of_device : String → List Segment → Handler → Route
of_device m parts = v1 m (literal "devices" ∷ text ∷ parts)

-- The routes at /api/v1 and at /api/v1/discovery.
unfoldable pub api_routes : List Route
api_routes =
    one "GET" "summary" summary
    ∷ one "GET" "devices" devices
    ∷ of_device "GET" [] device_detail
    ∷ of_device "GET" (literal "entity" ∷ []) device_entity
    ∷ of_device "GET" (literal "snmp-sessions" ∷ []) device_snmp_sessions
    ∷ of_device "POST" (literal "vlans" ∷ literal "poll" ∷ []) device_vlan_poll
    ∷ one "GET" "vlans" vlans
    ∷ two "POST" "vlans" "policy" vlan_policy_set
    ∷ one "GET" "stp" stp_summary
    ∷ v1 "GET" (literal "stp" ∷ number ∷ []) stp_tree
    ∷ two "POST" "stp" "expected-roots" stp_expected_root_add
    ∷ v1 "POST" (literal "stp" ∷ literal "expected-roots" ∷ literal "remove" ∷ [])
        stp_expected_root_remove
    ∷ one "GET" "issues" issues
    ∷ two "POST" "issues" "ack" issue_ack
    ∷ two "POST" "issues" "unack" issue_unack
    ∷ two "GET" "issues" "types" issue_types
    ∷ two "POST" "issues" "suppress" issue_suppress
    ∷ two "POST" "issues" "unsuppress" issue_unsuppress
    ∷ one "POST" "devices" device_create
    ∷ of_device "PUT" [] device_update
    ∷ of_device "DELETE" [] device_delete
    ∷ one "GET" "clientlocations" clientlocations
    ∷ one "GET" "event" event_get
    ∷ one "PUT" "event" event_put
    ∷ one "POST" "reset" reset
    ∷ one "GET" "system" system_status
    ∷ two "PUT" "system" "polling" system_polling_set
    ∷ two "GET" "system" "perf" system_perf
    ∷ two "GET" "system" "env" system_env
    ∷ v1 "GET" (literal "ws" ∷ literal "logs" ∷ text ∷ []) ws_logs
    ∷ two "POST" "discovery" "run" discovery_run
    ∷ two "GET" "discovery" "status" discovery_status
    ∷ two "GET" "discovery" "config" discovery_get_config
    ∷ two "PUT" "discovery" "config" discovery_put_config
    ∷ []

-- The route that serves the pages of the web interface, behind all others.
abbrev pub spa_route : Route
spa_route = record { handler = spa; verb = "GET"; pattern = rest ∷ []; rank = some 20 }

unfoldable pub routes : List Route
unfolding api_routes
routes = api_routes ++ (spa_route ∷ [])

-- The server drops the empty parts of a path.
unfoldable pub server_segments : String → List String
unfolding split
server_segments path = keep (λ s. not (str_eq s "")) (split "/" path)

-- A route is left for the next one when its path does not fit or a parameter cannot be read.
unfoldable pub matches : Reader → List Segment → List String → Bool
matches reader [] [] = true
matches reader [] (s ∷ segments) = false
matches reader (rest ∷ pattern) [] = reader.is_path_buf []
matches reader (p ∷ pattern) [] = false
matches reader (rest ∷ pattern) (s ∷ segments) = reader.is_path_buf (s ∷ segments)
matches reader (literal a ∷ pattern) (s ∷ segments) =
    let others = matches reader pattern segments in if str_eq a s then others else false
matches reader (text ∷ pattern) (s ∷ segments) = matches reader pattern segments
matches reader (number ∷ pattern) (s ∷ segments) =
    let others = matches reader pattern segments in if reader.is_i64 s then others else false

unfoldable pub serves : Reader → String → List String → Route → Bool
unfolding matches
serves reader method parts r = str_eq r.verb method && matches reader r.pattern parts

-- The routes of a list that serve a request, by their ranks: those without one come first, and only
-- one has a rank.
unfoldable pub serving : Reader → List Route → String → List String → List Route
unfolding serves
serving reader rs method parts =
    keep (serves reader method parts)
      (keep (λ (r : Route). not (is_some r.rank)) rs ++ keep (λ (r : Route). is_some r.rank) rs)

unfoldable pub first_handler : List Route → Option Handler
first_handler [] = none
first_handler (r ∷ rs) = some r.handler

-- The handler that answers a request.
unfoldable pub dispatch : Reader → String → String → Option Handler
unfolding routes serving server_segments first_handler
dispatch reader method path = first_handler (serving reader routes method (server_segments path))
