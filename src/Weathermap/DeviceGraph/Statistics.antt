-- ===== src/Weathermap/DeviceGraph/Statistics.antt =====
-- weathermap/js/devicegraph.js: the batch of statistics, from the two Prometheus queries to the
-- interfaces.
use jaspy.Prelude.{
  ℕ, String, Option, none, some, List, [], ◌∷◌, Dict, get, put, keys, if◌then◌else◌, str_eq,
  Outcome, done, ◌>>=◌,
}
use jaspy.Weathermap.Numbers.{Double, int, parse_int}
use jaspy.Weathermap.Interface.{Stats}
use jaspy.Weathermap.Device.{Device, interface_update_event}
use jaspy.Weathermap.Device.Status
use jaspy.Weathermap.DeviceGraph.{Batch, Map, with_device, each_device}

-- One element of a result vector: its labels and the text of its value. The speed query has no
-- direction.
pub record Metric : Type 0 where
  pub fqdn : String
  pub name : String
  pub direction : String
  pub value : String

module _ {S : Type 0} where
  abbrev pub no_stats : Stats S
  no_stats = record { rx_mbps = none; tx_mbps = none; speed_mbps = none }

  abbrev pub stats_of : Option (Stats S) → Stats S
  stats_of none = no_stats
  stats_of (some s) = s

  abbrev pub device_batch : Option (Dict (Stats S)) → Dict (Stats S)
  device_batch none = []
  device_batch (some d) = d

  -- The statistics of an interface in the batch.
  abbrev pub entry : String → String → Batch S → Stats S
  entry fqdn name batch = stats_of (get name (device_batch (get fqdn batch)))

  -- `updateBatchDeviceInterfaceExists`, and the assignment after it.
  unfoldable pub update_entry : String → String → (Stats S → Stats S) → Batch S → Batch S
  update_entry fqdn name f batch =
      put fqdn (put name (f (entry fqdn name batch)) (device_batch (get fqdn batch))) batch

  -- The assignment to the member `direction + "_mbps"`; any other member is never read.
  unfoldable pub set_direction : String → S → Stats S → Stats S
  set_direction direction v s =
      if str_eq direction "rx"
      then record s { rx_mbps = some v }
      else if str_eq direction "tx"
      then record s { tx_mbps = some v }
      else if str_eq direction "speed"
      then record s { speed_mbps = some v }
      else s

  unfoldable pub stale_event : Device S → Device S
  stale_event d = if d.stale then interface_update_event d else d

  -- The loop that ends both updates of the batch.
  unfoldable pub stale_events : Map S → Outcome (Map S)
  unfolding stale_event
  stale_events m = each_device (λ _ w d. done (w, stale_event d)) (keys m.1) m

  -- `commitStatisticsUpdate`: a device that is not on the map is reported on the console.
  unfoldable pub commit_entries : ℕ → List (String × Dict (Stats S)) → Map S → Outcome (Map S)
  commit_entries now [] m = done m
  commit_entries now ((fqdn, stats) ∷ rest) m =
      with_device fqdn (Status.update_statistics now stats) m >>= commit_entries now rest

module _ {S : Type 0} ⦃num : Double S⦄ where
  abbrev pub number : String → S
  number text = elim (parse_int text) [ none ↦ num.nan | some i ↦ num.of_int i ]

  -- Bytes per second as megabits per second.
  abbrev pub megabits : S → S
  megabits v = num.div (num.div (num.mul v (int 8)) (int 1000)) (int 1000)

  unfoldable pub batch_octets : List Metric → Batch S → Batch S
  unfolding update_entry set_direction
  batch_octets [] batch = batch
  batch_octets (m ∷ rest) batch =
      batch_octets rest
        (update_entry m.fqdn m.name (set_direction m.direction (megabits (number m.value))) batch)

  unfoldable pub batch_speeds : List Metric → Batch S → Batch S
  unfolding update_entry
  batch_speeds [] batch = batch
  batch_speeds (m ∷ rest) batch =
      batch_speeds rest
        (update_entry m.fqdn m.name (λ s. record s { speed_mbps = some (number m.value) }) batch)
