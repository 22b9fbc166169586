-- ===== src/Switchmaster/Store/Laws.antt =====
-- What an update of a switch does to the list of the switches.
use jaspy.Prelude.{
  ℕ, ◌<◌, String, Option, none, some, List, [], ◌∷◌, ◌≡◌, refl, ap, ◌∙◌, if◌then◌else◌, str_eq,
  length, map, Option-cases, Bool-cases, inl, inr, arith, eq_iff, is_some, ◌&&◌,
}
use jaspy.Switchmaster.Store.{
  Browser, SetsElements, Switch, SwitchStoreState, index_of, set, update_item,
}

-- The first switch of a name.
unfoldable pub find : String → List Switch → Option Switch
find name [] = none
find name (entry ∷ items) = if str_eq entry.fqdn name then some entry else find name items

abbrev pub names : List Switch → List String
names items = map (λ entry. entry.fqdn) items

-- The list with the first switch of the same name replaced, and the list where there is none.
replaced : Switch → List Switch → List Switch
replaced item [] = []
replaced item (entry ∷ items) =
    if str_eq entry.fqdn item.fqdn then item ∷ items else entry ∷ replaced item items

-- What the index of a name says of the list.
abbrev Located : Switch → List Switch → Option ℕ → Type 0
Located item items none = replaced item items ≡ items
Located item items (some i) = (i < length items) × (set items i item ≡ replaced item items)

index_of-Located :
    (item : Switch) (items : List Switch) → Located item items (index_of item.fqdn items)
unfolding index_of replaced
index_of-Located item [] = refl
index_of-Located item (entry ∷ items) =
    let later = index_of-Located item items in
    elim (Bool-cases (str_eq entry.fqdn item.fqdn)) [
      | inl e ↦ rw (e, e) (omega arith, refl)
      | inr e ↦ elim (Option-cases (index_of item.fqdn items)) [
        | inl h ↦ rw (e, h, e) (ap (◌∷◌ entry) (rw h at later))
        | inr (i, h) ↦
            let found = rw h at later in rw (e, h, e) (omega arith, ap (◌∷◌ entry) found.1)
      ]
    ]

names-replaced : (item : Switch) (items : List Switch) → names (replaced item items) ≡ names items
unfolding replaced
names-replaced item [] = refl
names-replaced item (entry ∷ items) =
    ground (arith, eq_iff entry.fqdn item.fqdn, names-replaced item items)

abbrev pub find_after : Switch → String → List Switch → Option Switch
find_after item name items =
    if str_eq item.fqdn name && is_some (find name items) then some item else find name items

find-replaced :
    (item : Switch) (name : String) (items : List Switch)
    → find name (replaced item items) ≡ find_after item name items
unfolding replaced find
find-replaced item name [] = ground arith
find-replaced item name (entry ∷ items) = ground (
  arith,
  eq_iff entry.fqdn item.fqdn,
  eq_iff entry.fqdn name,
  eq_iff item.fqdn name,
  find-replaced item name items,
)

module _ (browser : Browser) (laws : SetsElements browser) where
  update_item-replaced :
      (item : Switch) (s : SwitchStoreState)
      → (update_item browser item s).items ≡ replaced item s.items
  unfolding update_item
  update_item-replaced item s =
      let located = index_of-Located item s.items in
      elim (Option-cases (index_of item.fqdn s.items)) [
        | inl h ↦ rw (h, laws.vue_set-none s.items item, rw h at located)
        | inr (i, h) ↦
            let found = rw h at located in rw (h, laws.vue_set-index s.items i item found.0) found.1
      ]

  -- Where an element is set at an index and nowhere without one, after an update of a switch its
  -- name finds the new switch if it found one before, every other name finds what it found, and the
  -- names on the list are the same in the same order.
  pub update_item-find :
      (item : Switch) (s : SwitchStoreState) (name : String)
      → (find name (update_item browser item s).items ≡ find_after item name s.items)
        × (names (update_item browser item s).items ≡ names s.items)
  update_item-find item s name = (
    ap (find name) (update_item-replaced item s) ∙ find-replaced item name s.items,
    ap names (update_item-replaced item s) ∙ names-replaced item s.items,
  )
