-- ===== src/Weathermap/Interface.antt =====
-- weathermap/js/interface.js: an interface of a device. Times are milliseconds, where the source
-- divides them by 1000 before it compares.
use jaspy.Prelude.{ℕ, ◌+◌, Bool, String, Option, none, some, [], Dict, put, ltb, List, ◌∷◌}

-- A reference to an interface object: it is shared by the device that owns it, by the link that
-- starts at it and by the interface at the other end.
abbrev pub Ref : Type 0
Ref = ℕ

pub record Stats (S : Type 0) : Type 0 where
  pub rx_mbps : Option S
  pub tx_mbps : Option S
  pub speed_mbps : Option S

-- `topologyData` is written and never read: its members are kept as text.
pub record Interface (S : Type 0) : Type 0 where
  pub parent_device_fqdn : String
  pub name : String
  pub topology_data : Dict String
  pub statistics_data : Option (Stats S)
  pub connected_to_interface : Option Ref
  pub status : Option Bool
  pub last_update : ℕ

-- `connectedTo` of the topology data, and all members as text.
pub record Connection : Type 0 where
  pub fqdn : String
  pub interface : String

pub record InterfaceData : Type 0 where
  pub connected_to : Option Connection
  pub members : Dict String

copy_members : List (String × String) → Dict String → Dict String
copy_members [] d = d
copy_members ((key, value) ∷ rest) d = copy_members rest (put key value d)

-- `Date.getTime() - lastUpdate > 60 s`
abbrev pub stale_after : ℕ
stale_after = 60000

module _ {S : Type 0} where
  unfoldable pub new_interface : String → String → Interface S
  new_interface name parent = record {
    parent_device_fqdn = parent;
    name = name;
    topology_data = [];
    statistics_data = none;
    connected_to_interface = none;
    status = none;
    last_update = 0;
  }

  unfoldable pub update_topology_data : Interface S → InterfaceData → Interface S
  unfolding copy_members
  update_topology_data i v = record i { topology_data = copy_members v.members i.topology_data }

  unfoldable pub set_status : ℕ → Option Bool → Interface S → Interface S
  set_status now state i = record i { last_update = now; status = state }

  unfoldable pub update_statistics : ℕ → Stats S → Interface S → Interface S
  update_statistics now s i = record i { last_update = now; statistics_data = some s }

  unfoldable pub is_stale : ℕ → Interface S → Bool
  is_stale now i = ltb (i.last_update + stale_after) now
