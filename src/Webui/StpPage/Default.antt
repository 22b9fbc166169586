-- ===== src/Webui/StpPage/Default.antt =====
-- Which VLAN the address names: the one that was chosen, or else the first one of the first answer.
use jaspy.Prelude.{
  ℕ, false, String, Option, none, some, List, [], ◌∷◌, Dict, get, has, ◌≡◌, refl, ◌∙◌, get-put,
  get-put_self, get-delete, ap, is_some, All, str_eq, Bool-cases, Option-cases, inl, inr, arith,
}
use jaspy.Webui.Platform.{Platform}
use jaspy.Webui.StpPage.{
  Page, Event, opened, step, run, choose_first, default_vlan, handle, first_vlan, set_param,
  summary_answer, choose,
}

-- An event that does not choose a VLAN.
abbrev pub Leaves : Event → Type 0
Leaves (choose key value) = str_eq key "vlan" ≡ false
Leaves _ = Unit

-- The first VLAN of the first answer that has VLANs.
abbrev pub first_answer : List Event → Option ℕ
first_answer [] = none
first_answer (summary_answer vlans ∷ events) = elim (first_vlan vlans) [
  | none ↦ first_answer events
  | some v ↦ some v
]
first_answer (e ∷ events) = first_answer events

-- The VLAN of the address.
abbrev pub vlan_param : Page → Option String
vlan_param s = get "vlan" s.params

missing : (params : Dict String) → has "vlan" params ≡ false → get "vlan" params ≡ none
missing params h = elim (Option-cases (get "vlan" params)) [
  | inl e ↦ e
  | inr (v, e) ↦ absurd (ground (arith, h, e))
]

module _ (platform : Platform) (number : String → ℕ) where
  set_param-vlan :
      (key value : String) (s : Page)
      → str_eq key "vlan" ≡ false
      → vlan_param (set_param key value s) ≡ vlan_param s
  unfolding set_param
  set_param-vlan key value s h = elim (Bool-cases (str_eq value "")) [
    | inl e ↦ rw e (get-delete key "vlan" s.params ∙ rw h refl)
    | inr e ↦ rw e (get-put key "vlan" value s.params ∙ rw h refl)
  ]

  handle-vlan :
      (e : Event) (s : Page) → Leaves e → vlan_param (handle platform number e s) ≡ vlan_param s
  unfolding handle
  handle-vlan (choose key value) s h = set_param-vlan key value s h
  handle-vlan e s h = ground arith

  choose_first-kept :
      (o : Option ℕ) (s : Page) (v : String)
      → vlan_param s ≡ some v
      → vlan_param (choose_first platform number o s) ≡ some v
  unfolding choose_first
  choose_first-kept none s v h = h
  choose_first-kept (some n) s v h = rw (ap is_some h) h

  run-kept :
      (events : List Event) (s : Page) (v : String)
      → All Leaves events
      → vlan_param s ≡ some v
      → vlan_param (run platform number events s) ≡ some v
  unfolding run step default_vlan
  run-kept [] s v hs h = h
  run-kept (e ∷ events) s v hs h =
      let t = handle platform number e s in
      run-kept events _ v hs.1
        (choose_first-kept (first_vlan t.vlans) t v (handle-vlan e s hs.0 ∙ h))

  -- The first VLAN of the last answer, behind an event.
  abbrev known : Event → Page → Option ℕ
  known (summary_answer vlans) s = first_vlan vlans
  known e s = first_vlan s.vlans

  first_vlan-handle :
      (e : Event) (s : Page) → first_vlan (handle platform number e s).vlans ≡ known e s
  unfolding handle
  first_vlan-handle (summary_answer vlans) s = refl
  first_vlan-handle (choose key value) s = ground arith
  first_vlan-handle e s = ground arith

  first_answer-known :
      (e : Event) (events : List Event) (s : Page)
      → first_vlan s.vlans ≡ none
      → first_answer (e ∷ events)
        ≡ (elim (known e s) [ none ↦ first_answer events | some v ↦ some v ])
  first_answer-known (summary_answer vlans) events s h = refl
  first_answer-known e events s h = rw h refl

  -- The text of a number, if there is one.
  abbrev shown : Option ℕ → Option String
  shown none = none
  shown (some n) = some (platform.show n)

  step-known :
      (e : Event) (s : Page) (o : Option ℕ)
      → known e s ≡ o
      → step platform number e s ≡ choose_first platform number o (handle platform number e s)
  unfolding step default_vlan
  step-known e s o h =
      ap (λ x. choose_first platform number x (handle platform number e s))
        (first_vlan-handle e s ∙ h)

  run-first :
      (events : List Event) (s : Page)
      → All Leaves events
      → vlan_param s ≡ none
      → first_vlan s.vlans ≡ none
      → vlan_param (run platform number events s) ≡ shown (first_answer events)
  unfolding run choose_first
  run-first [] s hs h empty = h
  run-first (e ∷ events) s hs h empty =
      let t = handle platform number e s in
      let still : vlan_param t ≡ none = handle-vlan e s hs.0 ∙ h in
      let after = λ (x : Page). vlan_param (run platform number events x) in
      elim (Option-cases (known e s)) [
        | inl k ↦
            ap after (step-known e s none k)
            ∙ run-first events t hs.1 still (first_vlan-handle e s ∙ k)
            ∙ rw (first_answer-known e events s empty, k) refl
        | inr (v, k) ↦
            let named : vlan_param (choose_first platform number (some v) t)
                ≡ some (platform.show v) =
              rw (ap is_some still) (get-put_self "vlan" (platform.show v) t.params) in
            ap after (step-known e s (some v) k)
            ∙ run-kept events _ (platform.show v) hs.1 named
            ∙ rw (first_answer-known e events s empty, k) refl
      ]

  -- For events that choose no VLAN: from a page opened without a VLAN in the address, the address
  -- then names the first VLAN of the first answer to the summary that has VLANs, and none without
  -- such an answer; from any page, behind a choice of a VLAN that is not empty, it names that VLAN.
  pub run-vlan :
      (params : Dict String) (s : Page) (v : String) (events : List Event)
      → has "vlan" params ≡ false
      → str_eq v "" ≡ false
      → All Leaves events
      → (vlan_param (run platform number events (opened params)) ≡ shown (first_answer events))
        × (vlan_param (run platform number (choose "vlan" v ∷ events) s) ≡ some v)
  unfolding run step default_vlan handle set_param first_vlan
  run-vlan params s v events free filled hs =
      let chosen = set_param "vlan" v s in
      let named : vlan_param chosen ≡ some v = rw filled (get-put_self "vlan" v s.params) in
      (
        run-first events (opened params) hs (missing params free) refl,
        run-kept events _ v hs (choose_first-kept (first_vlan chosen.vlans) chosen v named),
      )
