-- ===== src/Switchmaster/Client/Overlay.antt =====
-- When the page is covered: `processing` is what the status overlay is shown by.
use jaspy.Prelude.{
  ℕ, Bool, true, false, none, some, List, [], ◌∷◌, ◌++◌, ◌≡◌, refl, ◌≢◌, ◌⊎◌, inl, inr,
  Option-cases,
}
use jaspy.Switchmaster.Store.{Browser, SwitchStoreState}
use jaspy.Switchmaster.Client.{
  Action, Event, dispatch, settle, updated, starting_synchronization, synchronized, Page, initial,
  Outcome, answered, rejected, fetch, update, synchronize, step, run, take_out, finish,
}

-- Whether the server is synchronizing, as far as its messages say, where `on` was so before.
unfoldable pub announced : Bool → List Event → Bool
announced on [] = on
announced on (starting_synchronization ∷ events) = announced true events
announced on (synchronized result ∷ events) = announced false events
announced on (dispatch a ∷ events) = announced on events
announced on (settle i outcome ∷ events) = announced on events
announced on (updated item ∷ events) = announced on events

abbrev Covered : Bool → Page → Type 0
Covered on p = p.store.processing ≡ true → (p.in_flight ≢ []) ⊎ (on ≡ true)

append-ne-nil : {A : Type 0} (xs : List A) (x : A) → xs ++ (x ∷ []) ≢ []
append-ne-nil [] x e = cc
append-ne-nil (y ∷ ys) x e = cc

module _ (browser : Browser) where
  finish-processing :
      (a : Action) (outcome : Outcome) (s : SwitchStoreState)
      → (finish browser a outcome s).processing ≡ false
  unfolding finish
  finish-processing fetch (answered items) s = refl
  finish-processing (update payload) (answered items) s = refl
  finish-processing synchronize (answered items) s = refl
  finish-processing a (rejected error) s = refl

  settle-Covered :
      (on : Bool) (i : ℕ) (outcome : Outcome) (p : Page)
      → Covered on p
      → Covered on (step browser (settle i outcome) p)
  unfolding step
  settle-Covered on i outcome p h = elim (Option-cases (take_out i p.in_flight)) [
    | inl e ↦ rw (step, e) h
    | inr ((a, rest), e) ↦ rw (step, e) (λ c. cc (finish-processing a outcome p.store))
  ]

  run_from-Covered :
      (on : Bool) (events : List Event) (p : Page)
      → Covered on p
      → Covered (announced on events) (run browser events p)
  unfolding run announced
  run_from-Covered on [] p h = h
  run_from-Covered on (dispatch a ∷ events) p h =
      run_from-Covered on events _ (unfold step in λ c. inl (append-ne-nil p.in_flight a))
  run_from-Covered on (settle i outcome ∷ events) p h =
      run_from-Covered on events _ (settle-Covered on i outcome p h)
  run_from-Covered on (updated item ∷ events) p h = run_from-Covered on events _ h
  run_from-Covered on (starting_synchronization ∷ events) p h =
      run_from-Covered true events _ (λ c. inr refl)
  run_from-Covered on (synchronized none ∷ events) p h = run_from-Covered false events _ (λ c. cc c)
  run_from-Covered on (synchronized (some result) ∷ events) p h =
      run_from-Covered false events _ (λ c. cc c)

  -- From the start of the page, after any events, when the page is covered, a request is in flight
  -- or the server has begun a synchronization that has not ended.
  pub run-covered :
      (events : List Event)
      → (run browser events initial).store.processing ≡ true
      → ((run browser events initial).in_flight ≢ []) ⊎ (announced false events ≡ true)
  run-covered events = run_from-Covered false events initial (λ c. cc c)
