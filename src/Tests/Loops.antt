-- ===== src/Tests/Loops.antt =====
-- Examples on the scheduler.
use gitlab_knowledege.Common.{ℕ, ◌≡◌, ◌≢◌, refl, Bool, true, false, none, some, List, [], ◌∷◌, All}
use gitlab_knowledege.Store.Invariant.{IsValid, bootstrap_schema-IsValid}
use gitlab_knowledege.Scheduler.{Scheduler, Service, is_running, refreshed, run}
use gitlab_knowledege.Scheduler.Life.{
  Call, call_start, call_stop, sleep_ends, answers, perform_all, start_loops,
}
use gitlab_knowledege.Scheduler.Ticks.{run-IsValid, run_busy}
use gitlab_knowledege.Tests.{working, new_world, busy_world, some_handle}

abbrev two_ticks : List Bool
two_ticks = false ∷ false ∷ true ∷ false ∷ []

abbrev hourly : Scheduler
hourly = record { interval = 3600; stop_event = false; thread = none }

abbrev stopped : Service ℕ
stopped = record {
  scheduler = record hourly { stop_event = true; thread = some false };
  world = new_world;
}

abbrev two_sleeps : List Call
two_sleeps = sleep_ends ∷ sleep_ends ∷ call_stop true ∷ sleep_ends ∷ []

start_loops_example :
    ((perform_all (some working) (call_start ∷ two_sleeps) stopped).0
      ≡ (run (some working) (answers two_sleeps) new_world).0)
    × ((perform_all (some working) (call_start ∷ two_sleeps) stopped).1.world
        ≡ (run (some working) (answers two_sleeps) new_world).1)
unfolding is_running
start_loops_example =
    start_loops (some working) two_sleeps stopped refl (refl, (refl, (refl, (refl, tt))))

abbrev ticking : Service ℕ
ticking = record { scheduler = record hourly { thread = some true }; world = new_world }

run-IsValid_example : IsValid (run (some working) two_ticks new_world).1.store.tables
run-IsValid_example = run-IsValid working two_ticks new_world bootstrap_schema-IsValid

run_busy_example :
    All (λ t. t ≢ refreshed) (run (some working) two_ticks busy_world).0
    × ((run (some working) two_ticks busy_world).1.coordinator ≡ busy_world.coordinator)
run_busy_example = run_busy working two_ticks busy_world some_handle refl
