-- ===== src/Switchmaster/Client/Names.antt =====
-- Which switches the page lists.
use mathlib.Core.List.{Perm, map-append}
use mathlib.Core.List.Perm
use jaspy.Prelude.{
  ℕ, String, none, some, List, [], ◌∷◌, ◌++◌, ◌≡◌, refl, sym, subst, inl, inr, Option-cases,
}
use jaspy.Switchmaster.Store.{
  Browser, Rearranges, SetsElements, SwitchStoreState, SynchronizationResult, by_fqdn, set_items,
  set_sync_result,
}
use jaspy.Switchmaster.Store.Laws.{names, update_item-find}
use jaspy.Switchmaster.Client.{
  Action, Event, dispatch, settle, updated, starting_synchronization, synchronized, Page, initial,
  Outcome, answered, rejected, fetch, update, synchronize, step, run, take_out, finish,
  on_synchronize,
}

-- The names that the server reports, with the actions in flight: the answer to a `fetch` has all of
-- them, and the result of a synchronization those that are new. No other event says anything of them. An action ends only if it is in flight.
finished : Action → Outcome → List String → List String
finished fetch (answered items) listed = names items
finished _ _ listed = listed

unfoldable pub reported : List Event → List Action → List String → List String
unfolding finished
reported [] actions listed = listed
reported (dispatch a ∷ events) actions listed = reported events (actions ++ (a ∷ [])) listed
reported (settle i outcome ∷ events) actions listed = elim (take_out i actions) [
  | none ↦ reported events actions listed
  | some (a, rest) ↦ reported events rest (finished a outcome listed)
]
reported (synchronized (some result) ∷ events) actions listed =
    reported events actions (listed ++ names result.new_switches)
reported (synchronized none ∷ events) actions listed = reported events actions listed
reported (updated item ∷ events) actions listed = reported events actions listed
reported (starting_synchronization ∷ events) actions listed = reported events actions listed

module _ (browser : Browser) (laws : SetsElements browser) (sorts : Rearranges browser) where
  abbrev Lists : SwitchStoreState → List String → Type 0
  Lists s listed = Perm (names s.items) listed

  finish-Lists :
      (a : Action) (outcome : Outcome) (s : SwitchStoreState) (listed : List String)
      → Lists s listed
      → Lists (finish browser a outcome s) (finished a outcome listed)
  unfolding finish finished set_items
  finish-Lists fetch (answered items) s listed h =
      Perm.map (λ entry. entry.fqdn) (sorts.sort-Perm (by_fqdn browser) items)
  finish-Lists (update payload) (answered items) s listed h = h
  finish-Lists synchronize (answered items) s listed h = h
  finish-Lists fetch (rejected error) s listed h = h
  finish-Lists (update payload) (rejected error) s listed h = h
  finish-Lists synchronize (rejected error) s listed h = h

  synchronize-Lists :
      (result : SynchronizationResult) (s : SwitchStoreState) (listed : List String)
      → Lists s listed
      → Lists (on_synchronize browser (some result) s) (listed ++ names result.new_switches)
  unfolding on_synchronize set_sync_result
  synchronize-Lists result s listed h =
      Perm.trans
        (Perm.map (λ entry. entry.fqdn)
          (sorts.sort-Perm (by_fqdn browser) (s.items ++ result.new_switches)))
        (rw map-append (Perm.append_right (names result.new_switches) h))

  step-settle-none :
      (i : ℕ) (outcome : Outcome) (p : Page)
      → take_out i p.in_flight ≡ none
      → step browser (settle i outcome) p ≡ p
  unfolding step
  step-settle-none i outcome p e = rw (step, e) refl

  step-settle-some :
      (i : ℕ) (outcome : Outcome) (p : Page) {a : Action} {rest : List Action}
      → take_out i p.in_flight ≡ some (a, rest)
      → step browser (settle i outcome) p
        ≡ record { store = finish browser a outcome p.store; in_flight = rest }
  unfolding step
  step-settle-some i outcome p e = rw (step, e) refl

  run_from-Lists :
      (events : List Event) (p : Page) (listed : List String)
      → Lists p.store listed
      → Lists (run browser events p).store (reported events p.in_flight listed)
  unfolding run reported
  run_from-Lists [] p listed h = h
  run_from-Lists (dispatch a ∷ events) p listed h = run_from-Lists events _ listed h
  run_from-Lists (settle i outcome ∷ events) p listed h =
      elim (Option-cases (take_out i p.in_flight)) [
        | inl e ↦
            rw (reported, e)
              (subst (λ q. Lists (run browser events q).store (reported events p.in_flight listed))
                (sym (step-settle-none i outcome p e)) (run_from-Lists events p listed h))
        | inr ((a, rest), e) ↦
            let q : Page = record { store = finish browser a outcome p.store; in_flight = rest } in
            let after = finished a outcome listed in
            rw (reported, e)
              (subst (λ q. Lists (run browser events q).store (reported events rest after))
                (sym (step-settle-some i outcome p e))
                (run_from-Lists events q after (finish-Lists a outcome p.store listed h)))
      ]
  run_from-Lists (updated item ∷ events) p listed h =
      run_from-Lists events _ listed
        (rw ((update_item-find browser laws item p.store item.fqdn).1) h)
  run_from-Lists (starting_synchronization ∷ events) p listed h = run_from-Lists events _ listed h
  run_from-Lists (synchronized none ∷ events) p listed h = run_from-Lists events _ listed h
  run_from-Lists (synchronized (some result) ∷ events) p listed h =
      run_from-Lists events _ _ (synchronize-Lists result p.store listed h)

  -- Where a sort only rearranges and an element is set at an index and nowhere without one, after
  -- any events the page lists, each as often, the names of the last answer to fetch and of the
  -- synchronizations since.
  pub run-names :
      (events : List Event)
      → Perm (names (run browser events initial).store.items) (reported events [] [])
  run-names events = run_from-Lists events initial [] (Perm.refl [])
