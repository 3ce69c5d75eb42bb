-- ===== src/Scheduler.antt =====
-- src/project_knowledge_mcp/scheduler.py: the thread's life as `start` and `stop` see it, and the
-- loop of the thread over the answers that its sleeps get. Logging is the list of what each tick
-- reports. A `timedelta` is a whole number of microseconds.
pub mod Ticks
pub mod Life
use gitlab_knowledege.Common.{
  ℕ, Bool, true, false, Option, none, some, List, [], ◌∷◌, ltb, if◌then◌else◌,
}
use gitlab_knowledege.Exec.{
  Error, ingestion_in_progress, value_error, runtime_error, Outcome, returned, raised, Exec,
}
use gitlab_knowledege.Jobs.{Wiring, World, is_in_progress_error, start_full_refresh}

-- Whole numbers, for a `timedelta` may be negative.
pub data ℤ : Type 0 where
  pos : ℕ → ℤ
  negsuc : ℕ → ℤ

-- `thread` is the worker, if one is held, and whether it is alive.
pub record Scheduler : Type 0 where
  pub interval : ℕ
  pub stop_event : Bool
  pub thread : Option Bool

-- The constructor refuses an interval that is not positive.
unfoldable pub new_scheduler : ℤ → Option Scheduler
new_scheduler (pos n) =
    if ltb 0 n then some (record { interval = n; stop_event = false; thread = none }) else none
new_scheduler (negsuc n) = none

unfoldable pub is_running : Scheduler → Bool
is_running s = elim s.thread [ none ↦ false | some alive ↦ alive ]

unfoldable pub start : Exec Scheduler (Unit {0})
start s = elim s.thread [
  | some true ↦ raised runtime_error s
  | _ ↦ returned tt (record s { stop_event = false; thread = some true })
]

-- What is left of the thread after the join.
unfoldable pub joined : Bool → Option Bool → Option Bool
joined exited none = none
joined exited (some false) = none
joined exited (some true) = if exited then none else some true

-- `exited` says whether a thread that was alive has exited before the join timed out.
unfoldable pub stop : Bool → Exec Scheduler (Unit {0})
stop exited s = returned tt (record s { stop_event = true; thread = joined exited s.thread })

-- The wait on the event, if nobody sets it meanwhile: true if it is set, and else a timeout.
unfoldable pub default_sleep_until_stop : Scheduler → Bool
default_sleep_until_stop s = s.stop_event

-- What a tick logs: nothing, the canonical rejection line, or an exception.
pub data Tick : Type 0 where
  refreshed : Tick
  skipped : Tick
  failed : Error → Tick

module _ {E : Type 0} where
  -- The two `except` arms of `_tick`: both go on.
  unfoldable pub logged : Outcome (World E) (Unit {0}) → Tick × World E
  logged (returned _ w) = (refreshed, w)
  logged (raised e w) = (if is_in_progress_error e then skipped else failed e, w)

  unfoldable pub tick : Option (Wiring E) → World E → Tick × World E
  unfolding logged
  tick wiring w = logged (start_full_refresh wiring w)

  -- `_run`, over what `_sleep_until_stop` answers: true stops the loop. At the end of the list the
  -- thread still sleeps.
  unfoldable pub run : Option (Wiring E) → List Bool → World E → List Tick × World E
  run wiring [] w = ([], w)
  run wiring (true ∷ sleeps) w = ([], w)
  run wiring (false ∷ sleeps) w =
      let rest = run wiring sleeps (tick wiring w).1 in ((tick wiring w).0 ∷ rest.0, rest.1)

-- The scheduler, and what its refreshes work on.
pub record Service (E : Type 0) : Type 0 where
  pub scheduler : Scheduler
  pub world : World E

module _ {E : Type 0} (wiring : Option (Wiring E)) where
  -- How the body of the loop goes on behind a sleep: by the return that ends the thread, or by a
  -- tick.
  unfoldable pub slept : Bool → Service E → List Tick × Service E
  unfolding tick
  slept true v = ([], record v { scheduler = record v.scheduler { thread = some false } })
  slept false v = let (report, w) = tick wiring v.world in (report ∷ [], record v { world = w })

  -- The end of a sleep of the thread, if it is alive.
  unfoldable pub wake : Service E → List Tick × Service E
  unfolding is_running default_sleep_until_stop slept
  wake v =
      if is_running v.scheduler then slept (default_sleep_until_stop v.scheduler) v else ([], v)
