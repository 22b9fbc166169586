-- ===== src/Weathermap/App/Loop.antt =====
-- weathermap/js/app.js: the timers of `frame` and the end of `mainLoop`.
use jaspy.Prelude.{
  ℕ, suc, ◌+◌, ◌*◌, ◌≤◌, Bool, true, false, String, List, [], ◌∷◌, ◌++◌, ◌≡◌, arith, if◌then◌else◌,
  Outcome, done, ◌>>=◌, All,
}
use jaspy.Weathermap.Numbers.{Double, Victor, Screen}
use jaspy.Weathermap.Config.{Config}
use jaspy.Weathermap.World.{Globals}
use jaspy.Weathermap.DeviceGraph
use jaspy.Weathermap.DeviceGraph.{Map}
use jaspy.Weathermap.App.{
  App, Timers, Fetch, topology, position, Frame, start_fetches, animation_part, pixi_part,
}

-- The requests of a kind in a list.
abbrev pub is_topology : Fetch → Bool
is_topology topology = true
is_topology _ = false

abbrev pub is_position : Fetch → Bool
is_position position = true
is_position _ = false

unfoldable pub count : (Fetch → Bool) → List Fetch → ℕ
count p [] = 0
count p (f ∷ fs) = if p f then suc (count p fs) else count p fs

count-append :
    (p : Fetch → Bool) (xs ys : List Fetch) → count p (xs ++ ys) ≡ count p xs + count p ys
unfolding count
count-append p [] ys = omega arith
count-append p (x ∷ xs) ys = ground (arith, count-append p xs ys)

-- The timers over a row of frames, each at a time and with the flags of that time.
unfoldable pub fetch_run : List (ℕ × Globals) → Timers → Timers × List Fetch
fetch_run [] t = (t, [])
fetch_run ((now, g) ∷ rest) t =
    let (t', started) = start_fetches now g t in
    let (t'', later) = fetch_run rest t' in (t'', started ++ later)

topology_step :
    (now : ℕ) (g : Globals) (t : Timers)
    → t.last_topology_update + count is_topology (start_fetches now g t).1 * 60001
      ≤ (start_fetches now g t).0.last_topology_update
unfolding start_fetches count
topology_step now g t = ground arith

fetch_run-spacing :
    (frames : List (ℕ × Globals)) (t : Timers)
    → t.last_topology_update + count is_topology (fetch_run frames t).1 * 60001
      ≤ (fetch_run frames t).0.last_topology_update
unfolding fetch_run
fetch_run-spacing [] t = unfold count in omega arith
fetch_run-spacing ((now, g) ∷ rest) t =
    let (t', started) = start_fetches now g t in
    omega (
      arith,
      topology_step now g t,
      fetch_run-spacing rest t',
      count-append is_topology started (fetch_run rest t').1,
    )

-- All frames of the row fall at or before a time.
abbrev pub Before : ℕ → List (ℕ × Globals) → Type 0
Before end = All (λ f. f.0 ≤ end)

topology_step-le :
    (now : ℕ) (g : Globals) (t : Timers) (end : ℕ)
    → now ≤ end
    → t.last_topology_update ≤ end
    → (start_fetches now g t).0.last_topology_update ≤ end
unfolding start_fetches
topology_step-le now g t end h k = ground arith

fetch_run-le :
    (frames : List (ℕ × Globals)) (t : Timers) (end : ℕ)
    → Before end frames
    → t.last_topology_update ≤ end
    → (fetch_run frames t).0.last_topology_update ≤ end
unfolding fetch_run
fetch_run-le [] t end h k = k
fetch_run-le ((now, g) ∷ rest) t end h k =
    fetch_run-le rest _ end h.1 (topology_step-le now g t end h.0 k)

-- For a time at or after the last topology update and at or after a row of frames, those frames ask
-- for the topology at most once in each 60001 ms between the last update and that time.
pub fetch_run-topology :
    (frames : List (ℕ × Globals)) (t : Timers) (end : ℕ)
    → Before end frames
    → t.last_topology_update ≤ end
    → t.last_topology_update + count is_topology (fetch_run frames t).1 * 60001 ≤ end
fetch_run-topology frames t end h k =
    omega (arith, fetch_run-spacing frames t, fetch_run-le frames t end h k)

-- While a drag or a changed setting freezes the positions, none are asked for.
pub start_fetches-frozen :
    (now : ℕ) (g : Globals) (t : Timers)
    → g.position_updates_frozen ≡ true
    → count is_position (start_fetches now g t).1 ≡ 0
unfolding start_fetches count
start_fetches-frozen now g t h = ground arith

module _ {S : Type 0} ⦃num : Double S⦄ ⦃vic : Victor S⦄ ⦃screen : Screen S⦄ (config : Config S)
    (matches : String → String → Bool) where
  -- What the user sees of the loop stays as it is.
  pub record Stopped (a b : App S) : Type 0 where
    pub running : b.running ≡ false
    pub renders : b.renders ≡ a.renders
    pub fetches : b.fetches ≡ a.fetches

  abbrev drawn : ℕ → Frame S → Map S → Frame S
  drawn now f m = record {
    map = m;
    timers = record (f.timers) { last_graphics_update = now };
    ticker_update = true;
  }

  abbrev animate : ℕ → Frame S → Outcome (Frame S)
  animate now f = animation_part config now f >>= λ f'. done (pixi_part f')
