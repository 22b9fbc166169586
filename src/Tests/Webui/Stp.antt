-- ===== src/Tests/Webui/Stp.antt =====
-- nexus/webui/src/pages/STP.tsx: a tree of four switches, one of them cut off.
use jaspy.Prelude.{false, String, Option, none, some, [], ◌∷◌, Dict, get, put, ◌≡◌, refl}
use jaspy.Webui.Types.{StpNode, StpTree}
use jaspy.Webui.StpPath.{
  hops, error, no_common_tree, index_nodes, ancestors, compute_stp_path, up_hop, down_hop,
}
use jaspy.Webui.StpPath.Walk.{Walks, index_nodes-Walks}
use jaspy.Webui.StpPath.Route.{Found, compute_stp_path-Found}

abbrev switch : String → Option String → Option String → StpNode
switch name parent port = record {
  fqdn = name;
  depth = 0;
  parent = parent;
  parent_interface = some "Gi1/0/48";
  root_port_interface_name = port;
  root_port_state = some "forwarding";
  path_cost = some 4;
  reported = none;
  root_mismatch = false;
  root_mismatch_detail = none;
  orphan = false;
}

abbrev core : StpNode
core = switch "core" none none

abbrev left : StpNode
left = switch "left" (some "core") (some "Te1")

abbrev right : StpNode
right = switch "right" (some "core") (some "Te2")

abbrev alone : StpNode
alone = switch "alone" (some "") none

abbrev tree : StpTree
tree = record {
  vlan = 10;
  roots = "core" ∷ [];
  nodes = core ∷ left ∷ right ∷ alone ∷ [];
  blocked_links = [];
  flags = [];
  names = "office" ∷ [];
  multiple_roots_detail = none;
}

over_the_core : compute_stp_path tree "left" "right" ≡ hops (up_hop left ∷ down_hop right ∷ [])
unfolding compute_stp_path get put
over_the_core = refl

cut_off : compute_stp_path tree "left" "alone" ≡ error no_common_tree
unfolding compute_stp_path get put
cut_off = refl

abbrev by_fqdn : Dict StpNode
by_fqdn = index_nodes tree.nodes []

index_nodes-Walks_example : Walks by_fqdn [] (get "left" by_fqdn) (ancestors by_fqdn "left")
index_nodes-Walks_example = index_nodes-Walks tree.nodes "left"

compute_stp_path-Found_example : Found by_fqdn "left" "right" (compute_stp_path tree "left" "right")
unfolding index_nodes get put
compute_stp_path-Found_example = compute_stp_path-Found tree "left" "right" refl refl
