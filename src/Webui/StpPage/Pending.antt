-- ===== src/Webui/StpPage/Pending.antt =====
-- No request of the page overtakes another.
use jaspy.Prelude.{
  ℕ, suc, ◌+◌, ◌≤◌, String, Option, none, some, List, [], ◌∷◌, ◌||◌, Dict, length, length-append,
  ◌≡◌, if◌then◌else◌, has, arith, Bool-cases, inl, inr,
}
use jaspy.Webui.Platform.{Platform}
use jaspy.Webui.StpPage.{
  Page, Event, opened, step, run, handle, on_confirm_mark, on_unmark, choose_first, default_vlan,
  first_vlan, summary_answer, choose, open_mark_form, type_note, cancel_mark, confirm_mark,
  mark_settled, press_unmark, unmark_settled,
}

-- The requests that are pending.
abbrev pending : Page → ℕ
pending s = (if s.marking then 1 else 0) + (if s.unmarking then 1 else 0)

-- How many ends of requests there are.
abbrev pub ends : List Event → ℕ
ends [] = 0
ends (mark_settled succeeded ∷ events) = suc (ends events)
ends (unmark_settled succeeded ∷ events) = suc (ends events)
ends (e ∷ events) = ends events

abbrev Kept : ℕ → Page → Type 0
Kept n s = (length s.calls ≤ n + pending s) × (pending s ≤ 1)

module _ (platform : Platform) (number : String → ℕ) where
  choose_first-Kept :
      (n : ℕ) (o : Option ℕ) (s : Page) → Kept n s → Kept n (choose_first platform number o s)
  unfolding choose_first
  choose_first-Kept n none s h = h
  choose_first-Kept n (some v) s h = elim (Bool-cases (has "vlan" s.params)) [
    | inl e ↦ rw e h
    | inr e ↦ rw e h
  ]

  handle-Kept :
      (n : ℕ) (e : Event) (s : Page)
      → Kept n s
      → Kept (ends (e ∷ []) + n) (handle platform number e s)
  unfolding handle
  handle-Kept n (summary_answer vlans) s h = (omega (arith, h), omega (arith, h))
  handle-Kept n (choose key value) s h = (ground (arith, h), ground (arith, h))
  handle-Kept n (open_mark_form fqdn) s h = (ground (arith, h), ground (arith, h))
  handle-Kept n (type_note note) s h = (omega (arith, h), omega (arith, h))
  handle-Kept n cancel_mark s h = (ground (arith, h), ground (arith, h))
  handle-Kept n (confirm_mark fqdn) s h = elim (Bool-cases (s.marking || s.unmarking)) [
    | inl e ↦ rw (on_confirm_mark, e) (omega (arith, h), omega (arith, h))
    | inr e ↦
        rw (on_confirm_mark, e, length-append s.calls) (ground (arith, e, h), ground (arith, e, h))
  ]
  handle-Kept n (mark_settled succeeded) s h = (ground (arith, h), ground (arith, h))
  handle-Kept n (press_unmark fqdn) s h = elim (Bool-cases (s.marking || s.unmarking)) [
    | inl e ↦ rw (on_unmark, e) (omega (arith, h), omega (arith, h))
    | inr e ↦ rw (on_unmark, e, length-append s.calls) (ground (arith, e, h), ground (arith, e, h))
  ]
  handle-Kept n (unmark_settled succeeded) s h = (ground (arith, h), ground (arith, h))

  -- The numbers of the first event and of the others.
  ends-cons : (e : Event) (events : List Event) → ends (e ∷ events) ≡ ends (e ∷ []) + ends events
  ends-cons (mark_settled succeeded) events = omega arith
  ends-cons (unmark_settled succeeded) events = omega arith
  ends-cons e events = omega arith

  run-Kept :
      (n : ℕ) (events : List Event) (s : Page)
      → Kept n s
      → Kept (ends events + n) (run platform number events s)
  unfolding run step default_vlan
  run-Kept n [] s h = (omega (arith, h), omega (arith, h))
  run-Kept n (e ∷ events) s h =
      let t = handle platform number e s in
      let kept =
        run-Kept (ends (e ∷ []) + n) events _
          (choose_first-Kept (ends (e ∷ []) + n) (first_vlan t.vlans) t (handle-Kept n e s h)) in
      (omega (arith, kept, ends-cons e events), kept.1)

  -- From an opened page with any parameters, after any events, the page has sent at most one
  -- request more than requests have ended, whether they set marks or remove them.
  pub run-one_pending :
      (params : Dict String) (events : List Event)
      → length (run platform number events (opened params)).calls ≤ ends events + 1
  run-one_pending params events =
      let kept = run-Kept 0 events (opened params) (omega arith, omega arith) in omega (arith, kept)
