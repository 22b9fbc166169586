-- ===== src/Webui/DeviceDetail/Controls/Chips.antt =====
-- The chips of the filter and the interfaces that are shown.
use native.Mathlib.Nat.{zero-add}
use jaspy.Prelude.{
  ℕ, ◌+◌, false, not, String, Option, none, some, List, [], ◌∷◌, map, length, Dict, get, put, ltb,
  ◌⊎◌, ◌≡◌, refl, ◌∙◌, if◌then◌else◌, str_eq, arith, eq_iff, Bool-cases, inl, inr,
}
use jaspy.Webui.Platform.{Platform, Rearranges}
use jaspy.Webui.DeviceTypes.{Interface}
use jaspy.Webui.Issues.Order.{keep, make_cmp}
use jaspy.Webui.Issues.Page.{set_has}
use jaspy.Webui.Tables.{iface_category, iface_sort_val}
use jaspy.Webui.DeviceDetail.Ports.{count_labels, or_zero}
use jaspy.Webui.DeviceDetail.Ports.Counts.{
  sum_of, sum_of-Perm, sum_of-map, sum_of-count_labels, length-map,
}
use jaspy.Webui.DeviceDetail.Controls.{
  Controls, Chip, type_counts, interface_types, type_chip, type_filter, shown, sorted_interfaces,
  visible_interfaces,
}

-- The interfaces of the chips that are off.
abbrev pub off_count : List Chip → ℕ
off_count cs = sum_of (λ (c : Chip). if c.on then 0 else c.count) cs

-- What the filter and the number of the interfaces that are shown say of all: the interfaces of the
-- chips that are off are those that are missing; without chips either none is missing or none is shown.
abbrev pub Accounts : Option (List Chip) → ℕ → ℕ → Type 0
Accounts (some cs) visible all = off_count cs + visible ≡ all
Accounts none visible all = (visible ≡ all) ⊎ (visible ≡ 0)

length-ones :
    (interfaces : List Interface) → sum_of (λ (i : Interface). 1) interfaces ≡ length interfaces
length-ones [] = refl
length-ones (i ∷ interfaces) = omega (arith, length-ones interfaces)

module _ (hidden : List String) where
  abbrev off : String × ℕ → ℕ
  off x = if not (set_has x.0 hidden) then 0 else x.1

  abbrev off_or_zero : String → Option ℕ → ℕ
  off_or_zero k none = 0
  off_or_zero k (some n) = off (k, n)

  sum_of-put_key :
      (k : String) (n : ℕ) (d : Dict ℕ)
      → sum_of off (put k n d) + off_or_zero k (get k d) ≡ sum_of off d + off (k, n)
  unfolding put get
  sum_of-put_key k n [] = omega arith
  sum_of-put_key k n ((j, m) ∷ d) = elim (Bool-cases (str_eq j k)) [
    | inl e ↦ let same : j ≡ k = (eq_iff j k).0 e in rw (e, same) (omega arith)
    | inr e ↦ rw e (omega (arith, sum_of-put_key k n d))
  ]

  off-more : (k : String) (o : Option ℕ) → off (k, or_zero o + 1) ≡ off_or_zero k o + off (k, 1)
  unfolding or_zero
  off-more k none = omega arith
  off-more k (some n) = ground arith

  sum_of-count_off :
      (labels : List String) (counts : Dict ℕ)
      → sum_of off (count_labels labels counts)
        ≡ sum_of off counts + sum_of (λ l. off (l, 1)) labels
  unfolding count_labels
  sum_of-count_off [] counts = omega arith
  sum_of-count_off (label ∷ labels) counts =
      let n = or_zero (get label counts) + 1 in
      omega (
        arith,
        sum_of-put_key label n counts,
        off-more label (get label counts),
        sum_of-count_off labels (put label n counts),
      )

module _ (platform : Platform) (sorts : Rearranges platform) (c : Controls) where
  -- One for an interface that is hidden.
  abbrev hides : Interface → ℕ
  hides i = off c.hidden_types (iface_category platform i, 1)

  length-keep_shown :
      (interfaces : List Interface)
      → sum_of hides interfaces + length (keep (shown platform c) interfaces) ≡ length interfaces
  unfolding shown
  length-keep_shown [] = refl
  length-keep_shown (i ∷ interfaces) = ground (arith, length-keep_shown interfaces)

  -- The interfaces of all types that are off.
  types_off :
      (interfaces : List Interface)
      → sum_of (off c.hidden_types) (interface_types platform interfaces) ≡ sum_of hides interfaces
  unfolding interface_types type_counts
  types_off interfaces =
      let categories = map (iface_category platform) interfaces in
      let counts = count_labels categories [] in
      sum_of-Perm (off c.hidden_types) (sorts.sort-Perm _ counts)
      ∙ sum_of-count_off c.hidden_types categories []
      ∙ zero-add (sum_of (λ l. off c.hidden_types (l, 1)) categories)
      ∙ sum_of-map (λ l. off c.hidden_types (l, 1)) (iface_category platform) interfaces

  -- The interfaces of all types.
  types_total :
      (interfaces : List Interface)
      → sum_of (λ (x : String × ℕ). x.1) (interface_types platform interfaces) ≡ length interfaces
  unfolding interface_types type_counts
  types_total interfaces =
      let categories = map (iface_category platform) interfaces in
      omega (
        arith,
        sum_of-Perm (λ (x : String × ℕ). x.1) (sorts.sort-Perm _ (count_labels categories [])),
        sum_of-count_labels categories [],
        length-map (iface_category platform) interfaces,
      )

  off_count-map :
      (types : Dict ℕ)
      → off_count (map (type_chip platform c) types) ≡ sum_of (off c.hidden_types) types
  unfolding type_chip
  off_count-map types = sum_of-map (λ (chip : Chip). if chip.on then 0 else chip.count) _ types

  hidden-visible :
      (interfaces : List Interface)
      → sum_of hides interfaces + length (visible_interfaces platform interfaces c)
        ≡ length interfaces
  unfolding visible_interfaces sorted_interfaces
  hidden-visible interfaces =
      let perm =
        sorts.sort-Perm (make_cmp platform (iface_sort_val c.iface_sort) c.iface_asc) interfaces in
      let sorted = sorted_interfaces platform interfaces c in
      omega (
        arith,
        sum_of-Perm hides perm,
        length-keep_shown sorted,
        length-ones sorted,
        length-ones interfaces,
        sum_of-Perm (λ (i : Interface). 1) perm,
      )

  -- One type at most is off or on as a whole.
  one_type :
      (types : Dict ℕ)
      → ltb 1 (length types) ≡ false
      → (sum_of (off c.hidden_types) types ≡ 0)
        ⊎ (sum_of (off c.hidden_types) types ≡ sum_of (λ (x : String × ℕ). x.1) types)
  one_type [] h = inl refl
  one_type ((t, n) ∷ []) h = elim (Bool-cases (set_has t c.hidden_types)) [
    | inl e ↦ inr (rw e refl)
    | inr e ↦ inl (rw e (omega arith))
  ]
  one_type (x ∷ y ∷ types) h = absurd (ground (arith, h))

  -- Where a sort only rearranges, when the page has the chips of the filter, the counts of those
  -- that are off and the number of the interfaces that are shown make up the number of all
  -- interfaces; when it has no chips, it shows all interfaces or none.
  pub type_filter-visible :
      (interfaces : List Interface)
      → Accounts
          (type_filter platform interfaces c)
          (length (visible_interfaces platform interfaces c))
          (length interfaces)
  unfolding type_filter
  type_filter-visible interfaces =
      let types = interface_types platform interfaces in
      elim (Bool-cases (ltb 1 (length types))) [
        | inl e ↦
            rw e
              (omega (arith, off_count-map types, types_off interfaces, hidden-visible interfaces))
        | inr e ↦ rw e (elim (one_type types e) [
          | inl none_off ↦
              inl (omega (arith, none_off, types_off interfaces, hidden-visible interfaces))
          | inr all_off ↦ inr (
              omega (
                arith,
                all_off,
                types_off interfaces,
                types_total interfaces,
                hidden-visible interfaces,
              ))
        ])
      ]
