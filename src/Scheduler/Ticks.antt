-- ===== src/Scheduler/Ticks.antt =====
-- The loop of the thread of src/project_knowledge_mcp/scheduler.py.
use gitlab_knowledege.Common.{
  ◌≡◌, ◌≢◌, refl, ◌∙◌, Bool, true, false, some, List, [], ◌∷◌, arith, All,
}
use gitlab_knowledege.Exec.{Outcome, returned, raised, ◌>>=◌}
use gitlab_knowledege.Store.Invariant.{IsValid}
use gitlab_knowledege.Coordinator.{JobHandle}
use gitlab_knowledege.Jobs.{Wiring, World, require_collaborators, full_refresh, start_full_refresh}
use gitlab_knowledege.Jobs.Busy.{full_refresh_refused}
use gitlab_knowledege.Jobs.Failure.{full_refresh_isolated}
use gitlab_knowledege.Jobs.Success.Publishes.{full_refresh_publishes}
use gitlab_knowledege.Scheduler.{refreshed, logged, tick, run}

module _ {E : Type 0} (k : Wiring E) where
  started : (w : World E) → start_full_refresh (some k) w ≡ full_refresh k w
  unfolding start_full_refresh require_collaborators ◌>>=◌
  started w = refl

  logged-IsValid :
      (w : World E) (o : Outcome (World E) (Unit {0}))
      → full_refresh k w ≡ o
      → IsValid w.store.tables
      → IsValid (logged o).1.store.tables
  unfolding logged
  logged-IsValid w (returned _ v) e valid =
      let (_, _, _, _, _, p) = full_refresh_publishes k w v valid e in p.valid
  logged-IsValid w (raised d v) e valid = (full_refresh_isolated k w v d valid e).0

  tick-IsValid : (w : World E) → IsValid w.store.tables → IsValid (tick (some k) w).1.store.tables
  unfolding tick
  tick-IsValid w valid = rw (started w) (logged-IsValid w (full_refresh k w) refl valid)

  -- With collaborators that may fail in any way, every run of the scheduler's loop from
  -- well-formed tables leaves well-formed tables.
  pub run-IsValid :
      (sleeps : List Bool) (w : World E)
      → IsValid w.store.tables
      → IsValid (run (some k) sleeps w).1.store.tables
  unfolding run
  run-IsValid [] w valid = valid
  run-IsValid (true ∷ sleeps) w valid = valid
  run-IsValid (false ∷ sleeps) w valid =
      run-IsValid sleeps (tick (some k) w).1 (tick-IsValid w valid)

  tick_busy :
      (w : World E) (h : JobHandle)
      → w.coordinator.running ≡ some h
      → ((tick (some k) w).0 ≢ refreshed) × ((tick (some k) w).1.coordinator ≡ w.coordinator)
  unfolding tick logged
  tick_busy w h busy =
      let (e, v, stops, same) = full_refresh_refused k w h busy in
      rw (started w, stops) (ground arith, same)

  -- While a job holds the slot, no tick of a run of the scheduler's loop reports a refresh, and
  -- the gate stays as it is.
  pub run_busy :
      (sleeps : List Bool) (w : World E) (h : JobHandle)
      → w.coordinator.running ≡ some h
      → All (λ t. t ≢ refreshed) (run (some k) sleeps w).0
        × ((run (some k) sleeps w).1.coordinator ≡ w.coordinator)
  unfolding run
  run_busy [] w h busy = (tt, refl)
  run_busy (true ∷ sleeps) w h busy = (tt, refl)
  run_busy (false ∷ sleeps) w h busy =
      let (first, same) = tick_busy w h busy in
      let (rest, kept) = run_busy sleeps (tick (some k) w).1 h (rw same busy) in
      ((first, rest), kept ∙ same)
