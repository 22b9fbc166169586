-- ===== src/Weathermap/Device/Groups.antt =====
-- weathermap/js/device.js: `updateTopologyData` and the keys of a device's link groups.
use jaspy.Prelude.{
  Bool, true, false, not, ◌&&◌, ◌||◌, String, Option, none, some, List, [], ◌∷◌, Dict, get, has,
  put, delete, ◌≡◌, refl, ◌∙◌, subst, ap, arith, str_eq, eq_iff, has-put, has-delete, has-cons,
  if◌then◌else◌, Option-cases, Bool-cases, inl, inr,
}
use jaspy.Weathermap.Numbers.{Double}
use jaspy.Weathermap.Interface
use jaspy.Weathermap.Interface.{InterfaceData, Connection, Ref}
use jaspy.Weathermap.World.{World, modify}
use jaspy.Weathermap.LinkGroup.{LinkGroup}
use jaspy.Weathermap.Device.{Device}
use jaspy.Weathermap.Device.Topology.{
  DeviceData, Scan, Updates, ensure_interface, ensure_link_group, note_update, scan_interface,
  scan_interfaces, update_link_group, update_link_groups, update_topology_data, start_scan,
}

-- Whether the data of an interface leads to a device.
abbrev pub points_to : String → Option Connection → Bool
points_to peer none = false
points_to peer (some c) = str_eq c.fqdn peer

-- Whether an interface of the data leads to a device.
unfoldable pub leads_to : String → List (String × InterfaceData) → Bool
leads_to peer [] = false
leads_to peer ((key, value) ∷ rest) = points_to peer value.connected_to || leads_to peer rest

or_assoc : (a b c : Bool) → (a || (b || c)) ≡ ((b || a) || c)
or_assoc true true c = refl
or_assoc true false c = refl
or_assoc false true c = refl
or_assoc false false c = refl

module _ {S : Type 0} ⦃num : Double S⦄ where
  ensure_interface-groups :
      (fqdn key : String) (s : Scan S)
      → ((ensure_interface fqdn key s).0.link_groups ≡ s.link_groups)
        × ((ensure_interface fqdn key s).0.updates ≡ s.updates)
  unfolding ensure_interface
  ensure_interface-groups fqdn key s = elim (Option-cases (get key s.interfaces)) [
    | inl e ↦ rw (e, ensure_interface) (refl, refl)
    | inr (r, e) ↦ rw (e, ensure_interface) (refl, refl)
  ]

  ensure_link_group-groups :
      (fqdn peer k : String) (s : Scan S)
      → (has k (ensure_link_group fqdn peer s).link_groups ≡ (str_eq peer k || has k s.link_groups))
        × ((ensure_link_group fqdn peer s).updates ≡ s.updates)
  unfolding ensure_link_group
  ensure_link_group-groups fqdn peer k s = elim (Bool-cases (has peer s.link_groups)) [
    | inl old ↦ rw old (ground (arith, eq_iff peer k), refl)
    | inr new ↦ rw new (has-put peer k _ s.link_groups, refl)
  ]

  -- The keys of both dictionaries after a round.
  abbrev Noted : String → Bool → Scan S → Scan S → Type 0
  Noted k b s t =
      (has k t.link_groups ≡ (b || has k s.link_groups))
      × (has k t.updates ≡ (b || has k s.updates))

  scan_interface-Noted :
      (fqdn key k : String) (value : InterfaceData) (s : Scan S)
      → Noted k (points_to k value.connected_to) s (scan_interface fqdn (key, value) s)
  unfolding scan_interface note_update
  scan_interface-Noted fqdn key k value s =
      let (groups, updates) = ensure_interface-groups fqdn key s in
      let (s', r) = ensure_interface fqdn key s in
      let t = record s' {
        world = modify r (λ i. Interface.update_topology_data i value) s'.world;
      } in
      elim (Option-cases value.connected_to) [
        | inl e ↦ rw (e, scan_interface) (ap (λ g. has k g) groups, ap (λ u. has k u) updates)
        | inr (c, e) ↦
            let (own, same) = ensure_link_group-groups fqdn c.fqdn k t in
            rw (e, scan_interface)
              (
                own ∙ ap (λ g. str_eq c.fqdn k || has k g) groups,
                has-put c.fqdn k _ _ ∙ ap (λ u. str_eq c.fqdn k || has k u) (same ∙ updates),
              )
      ]

  scan_interfaces-Noted :
      (fqdn k : String) (entries : List (String × InterfaceData)) (s : Scan S)
      → Noted k (leads_to k entries) s (scan_interfaces fqdn entries s)
  unfolding scan_interfaces leads_to
  scan_interfaces-Noted fqdn k [] s = (refl, refl)
  scan_interfaces-Noted fqdn k ((key, value) ∷ rest) s =
      let (own, noted) = scan_interface-Noted fqdn key k value s in
      let (own', noted') = scan_interfaces-Noted fqdn k rest (scan_interface fqdn (key, value) s) in
      (
        own' ∙ rw own (or_assoc (leads_to k rest) (points_to k value.connected_to) _),
        noted' ∙ rw noted (or_assoc (leads_to k rest) (points_to k value.connected_to) _),
      )

-- The two ways of a round of the third loop: `e` tests the key at hand, `a` the groups, `b` the
-- updates and `r` the entries behind.
written :
    (e a b r : Bool)
    → (e ≡ true → b ≡ true)
    → (if r then b else (e || a)) ≡ (if e || r then b else a)
written true a b true h = refl
written true a b false h = ground (arith, h refl)
written false a b r h = refl

removed :
    (e a b r : Bool)
    → (e ≡ true → b ≡ false)
    → (if r then b else (not e && a)) ≡ (if e || r then b else a)
removed true a b true h = refl
removed true a b false h = ground (arith, h refl)
removed false a b r h = refl

only_led : (l a : Bool) → (if l || a then (l || false) else (l || a)) ≡ l
only_led true a = refl
only_led false true = refl
only_led false false = refl

module _ {S : Type 0} where
  has-update_link_groups :
      (j : String) (updates : Updates) (snapshot : List (String × LinkGroup S)) (w : World S)
      (groups : Dict (LinkGroup S))
      → has j (update_link_groups updates snapshot (w, groups)).1
        ≡ (if has j snapshot then has j updates else has j groups)
  unfolding update_link_groups update_link_group get
  has-update_link_groups j updates [] w groups = refl
  has-update_link_groups j updates ((key, value) ∷ rest) w groups =
      rw (has-cons key j value rest) (elim (Option-cases (get key updates)) [
        | inl e ↦
            rw (e, update_link_group, update_link_groups)
              (rw
                (
                  has-update_link_groups j updates rest _ (delete key groups),
                  has-delete key j groups,
                )
                (removed (str_eq key j) (has j groups) (has j updates) (has j rest)
                  (λ q. subst (λ k. has k updates ≡ false) ((eq_iff key j).0 q) (rw e refl))))
        | inr (info, e) ↦
            rw (e, update_link_group, update_link_groups)
              (rw
                (has-update_link_groups j updates rest _ (put key _ groups), has-put key j _ groups)
                (written (str_eq key j) (has j groups) (has j updates) (has j rest)
                  (λ q. subst (λ k. has k updates ≡ true) ((eq_iff key j).0 q) (rw e refl))))
      ])

module _ {S : Type 0} ⦃num : Double S⦄ where
  -- After a topology update a device has a link group for each device that one of its interfaces
  -- leads to by the data, and no other, whatever groups it had.
  pub has-link_groups :
      (j : String) (data' : DeviceData) (w : World S) (d : Device S)
      → has j (update_topology_data data' w d).1.link_groups ≡ leads_to j data'.interfaces
  unfolding update_topology_data get
  has-link_groups j data' w d =
      let s = scan_interfaces d.fqdn data'.interfaces (start_scan w d) in
      let (groups, updates) = scan_interfaces-Noted d.fqdn j data'.interfaces (start_scan w d) in
      rw (has-update_link_groups j s.updates s.link_groups s.world s.link_groups, groups, updates)
        (only_led (leads_to j data'.interfaces) (has j d.link_groups))
