-- ===== src/Weathermap/DeviceGraph/BatchLaws.antt =====
-- weathermap/js/devicegraph.js: the entries of the batch of statistics.
use jaspy.Prelude.{
  Bool, true, false, ◌&&◌, String, Option, none, some, List, [], ◌∷◌, get, put, ◌≡◌, refl, ap, ◌∙◌,
  arith, str_eq, eq_iff, get-put, get-put_self, if◌then◌else◌, Bool-cases, inl, inr, subst, sym,
}
use jaspy.Weathermap.Numbers.{Double}
use jaspy.Weathermap.Interface.{Stats}
use jaspy.Weathermap.DeviceGraph.{Batch}
use jaspy.Weathermap.DeviceGraph.Statistics.{
  Metric, entry, update_entry, device_batch, set_direction, number, megabits, batch_octets,
  batch_speeds,
}

-- The last element of a result vector that passes a test.
unfoldable pub last_metric : (Metric → Bool) → List Metric → Option Metric
last_metric p [] = none
last_metric p (m ∷ rest) = elim (last_metric p rest) [
  | some x ↦ some x
  | none ↦ if p m then some m else none
]

abbrev pub of_interface : String → String → Metric → Bool
of_interface fqdn name m = str_eq m.fqdn fqdn && str_eq m.name name

abbrev pub toward : String → String → String → Metric → Bool
toward fqdn name direction m = of_interface fqdn name m && str_eq m.direction direction

module _ {S : Type 0} where
  -- The value of a metric, or the value before where there is none.
  abbrev pub or_before : (Metric → S) → Option Metric → Option S → Option S
  or_before f none before = before
  or_before f (some m) before = some (f m)

  -- What one more metric adds to the last one.
  last_step :
      (f : Metric → S) (p : Metric → Bool) (m : Metric) (last : Option Metric) (before : Option S)
      → or_before f last (if p m then some (f m) else before)
        ≡ or_before f (elim last [ some x ↦ some x | none ↦ if p m then some m else none ]) before
  last_step f p m (some x) before = refl
  last_step f p m none before = elim (Bool-cases (p m)) [ inl e ↦ rw e refl | inr e ↦ rw e refl ]

  chosen_direction :
      (here : Bool) (direction : String) (v : S) (s : Stats S)
      → let t = if here then set_direction direction v s else s in
        (t.rx_mbps ≡ (if here && str_eq direction "rx" then some v else s.rx_mbps))
        × (t.tx_mbps ≡ (if here && str_eq direction "tx" then some v else s.tx_mbps))
  unfolding set_direction
  chosen_direction here direction v s = elim (Bool-cases (str_eq direction "rx")) [
    | inl e ↦
        let other = subst (λ x. str_eq x "tx" ≡ false) (sym ((eq_iff direction "rx").0 e)) refl in
        ground (arith, e, other)
    | inr e ↦ ground (arith, e)
  ]

  chosen_speed :
      (here : Bool) (v : S) (s : Stats S)
      → let t = if here then record s { speed_mbps = some v } else s in
        (t.speed_mbps ≡ (if here then some v else s.speed_mbps))
        × (t.rx_mbps ≡ s.rx_mbps)
        × (t.tx_mbps ≡ s.tx_mbps)
  chosen_speed true v s = (refl, refl, refl)
  chosen_speed false v s = (refl, refl, refl)

  own_entry :
      (fqdn name n : String) (g : Stats S → Stats S) (batch : Batch S)
      → entry fqdn n (update_entry fqdn name g batch)
        ≡ (if str_eq name n then g (entry fqdn n batch) else entry fqdn n batch)
  unfolding update_entry
  own_entry fqdn name n g batch =
      let before = device_batch (get fqdn batch) in
      rw (get-put_self fqdn (put name (g (entry fqdn name batch)) before) batch) (
        rw (get-put name n (g (entry fqdn name batch)) before) (elim (Bool-cases (str_eq name n)) [
          | inl e ↦ rw e (ap (λ k. g (entry fqdn k batch)) ((eq_iff name n).0 e))
          | inr e ↦ rw e refl
        ]))

  -- Writing one entry of the batch leaves all others as they are.
  entry-update_entry :
      (fqdn name f n : String) (g : Stats S → Stats S) (batch : Batch S)
      → entry f n (update_entry fqdn name g batch)
        ≡ (if str_eq fqdn f && str_eq name n then g (entry f n batch) else entry f n batch)
  unfolding update_entry
  entry-update_entry fqdn name f n g batch = elim (Bool-cases (str_eq fqdn f)) [
    | inl e ↦ rw e (
        subst
          (λ k.
            entry k n (update_entry fqdn name g batch)
            ≡ (if str_eq name n then g (entry k n batch) else entry k n batch))
          ((eq_iff fqdn f).0 e) (own_entry fqdn name n g batch))
    | inr e ↦ rw (get-put fqdn f _ batch) (rw e refl)
  ]

module _ {S : Type 0} ⦃num : Double S⦄ where
  -- The value of a metric of the octets, in megabits per second.
  abbrev pub rate : Metric → S
  rate m = megabits (number m.value)

  abbrev pub speed_of : Metric → S
  speed_of m = number m.value

  octets_step :
      (m : Metric) (f n : String) (batch : Batch S)
      → entry f n (update_entry m.fqdn m.name (set_direction m.direction (rate m)) batch) ≡ (
          if of_interface f n m
          then set_direction m.direction (rate m) (entry f n batch)
          else entry f n batch)
  octets_step m f n batch =
      entry-update_entry m.fqdn m.name f n (set_direction m.direction (rate m)) batch

  -- After a batch of octets an interface has, in each direction, the last rate that the result
  -- reports for it, and what it had before where there is none.
  pub batch_octets-entry :
      (f n : String) (ms : List Metric) (batch : Batch S)
      → let before = entry f n batch in
        let after = entry f n (batch_octets ms batch) in
        (after.rx_mbps ≡ or_before rate (last_metric (toward f n "rx") ms) before.rx_mbps)
        × (after.tx_mbps ≡ or_before rate (last_metric (toward f n "tx") ms) before.tx_mbps)
  unfolding batch_octets last_metric
  batch_octets-entry f n [] batch = (refl, refl)
  batch_octets-entry f n (m ∷ rest) batch =
      let next = update_entry m.fqdn m.name (set_direction m.direction (rate m)) batch in
      let (rx, tx) = batch_octets-entry f n rest next in
      let now = octets_step m f n batch in
      let here = of_interface f n m in
      let (new_rx, new_tx) = chosen_direction here m.direction (rate m) (entry f n batch) in
      (
        rx
            ∙ (ap (or_before rate (last_metric (toward f n "rx") rest))
                  (ap (λ s. s.rx_mbps) now ∙ new_rx)
                ∙ last_step rate (toward f n "rx") m (last_metric (toward f n "rx") rest) _),
        tx
            ∙ (ap (or_before rate (last_metric (toward f n "tx") rest))
                  (ap (λ s. s.tx_mbps) now ∙ new_tx)
                ∙ last_step rate (toward f n "tx") m (last_metric (toward f n "tx") rest) _),
      )

  -- After a batch of speeds an interface has the last speed that the result reports for it, and
  -- what it had before where there is none; its rates are as before.
  pub batch_speeds-entry :
      (f n : String) (ms : List Metric) (batch : Batch S)
      → let before = entry f n batch in
        let after = entry f n (batch_speeds ms batch) in
        (after.speed_mbps
          ≡ or_before speed_of (last_metric (of_interface f n) ms) before.speed_mbps)
        × (after.rx_mbps ≡ before.rx_mbps)
        × (after.tx_mbps ≡ before.tx_mbps)
  unfolding batch_speeds last_metric
  batch_speeds-entry f n [] batch = (refl, refl, refl)
  batch_speeds-entry f n (m ∷ rest) batch =
      let put_speed = λ (s : Stats S). record s { speed_mbps = some (number m.value) } in
      let (speed, rx, tx) =
        batch_speeds-entry f n rest (update_entry m.fqdn m.name put_speed batch) in
      let now = entry-update_entry m.fqdn m.name f n put_speed batch in
      let last = last_metric (of_interface f n) rest in
      let (new_speed, new_rx, new_tx) =
        chosen_speed (of_interface f n m) (number m.value) (entry f n batch) in
      (
        speed
            ∙ (ap (or_before speed_of last) (ap (λ s. s.speed_mbps) now ∙ new_speed)
                ∙ last_step speed_of (of_interface f n) m last _),
        rx ∙ (ap (λ s. s.rx_mbps) now ∙ new_rx),
        tx ∙ (ap (λ s. s.tx_mbps) now ∙ new_tx),
      )
