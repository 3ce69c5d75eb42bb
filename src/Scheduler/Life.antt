-- ===== src/Scheduler/Life.antt =====
-- `start`, `stop` and the thread of src/project_knowledge_mcp/scheduler.py together.
use gitlab_knowledege.Common.{
  ℕ, ◌≡◌, refl, ap, Bool, true, false, Option, none, some, List, [], ◌∷◌, ◌++◌, All,
}
use gitlab_knowledege.Exec.{final}
use gitlab_knowledege.Jobs.{Wiring, World}
use gitlab_knowledege.Scheduler.{
  Service, Tick, is_running, start, joined, stop, default_sleep_until_stop, tick, run, slept, wake,
}

-- One call by another thread, or the end of a sleep of the worker. `call_stop` says whether a
-- worker that is alive exits before the join times out.
pub data Call : Type 0 where
  call_start : Call
  call_stop : Bool → Call
  sleep_ends : Call

abbrev pub is_start : Call → Bool
is_start call_start = true
is_start _ = false

-- What the sleeps of the worker answer: each ends by its timeout, up to the first stop.
abbrev pub answers : List Call → List Bool
answers [] = []
answers (call_start ∷ cs) = answers cs
answers (call_stop exited ∷ cs) = true ∷ []
answers (sleep_ends ∷ cs) = false ∷ answers cs

module _ {E : Type 0} (wiring : Option (Wiring E)) where
  abbrev pub perform : Call → Service E → List Tick × Service E
  perform call_start v = ([], record v { scheduler = final (start v.scheduler) })
  perform (call_stop exited) v = ([], record v { scheduler = final (stop exited v.scheduler) })
  perform sleep_ends v = wake wiring v

  -- The reports of all ticks, and what is left.
  abbrev pub perform_all : List Call → Service E → List Tick × Service E
  perform_all [] v = ([], v)
  perform_all (c ∷ cs) v =
      let rest = perform_all cs (perform c v).1 in ((perform c v).0 ++ rest.0, rest.1)

  abbrev service : ℕ → Bool → Option Bool → World E → Service E
  service interval stop_event thread w = record {
    scheduler = record { interval = interval; stop_event = stop_event; thread = thread };
    world = w;
  }

  -- With the event set.
  silent :
      (cs : List Call) (i : ℕ) (thread : Option Bool) (w : World E)
      → All (λ c. is_start c ≡ false) cs
      → ((perform_all cs (service i true thread w)).0 ≡ [])
        × ((perform_all cs (service i true thread w)).1.world ≡ w)
  unfolding stop wake slept is_running default_sleep_until_stop
  silent [] i thread w h = (refl, refl)
  silent (call_start ∷ cs) i thread w (h, hs) = cc
  silent (call_stop exited ∷ cs) i thread w (h, hs) = silent cs i (joined exited thread) w hs
  silent (sleep_ends ∷ cs) i none w (h, hs) = silent cs i none w hs
  silent (sleep_ends ∷ cs) i (some false) w (h, hs) = silent cs i (some false) w hs
  silent (sleep_ends ∷ cs) i (some true) w (h, hs) = silent cs i (some false) w hs

  -- With the event clear and a thread that is alive.
  looping :
      (cs : List Call) (i : ℕ) (w : World E)
      → All (λ c. is_start c ≡ false) cs
      → ((perform_all cs (service i false (some true) w)).0 ≡ (run wiring (answers cs) w).0)
        × ((perform_all cs (service i false (some true) w)).1.world ≡ (run wiring (answers cs) w).1)
  unfolding run stop wake slept is_running default_sleep_until_stop tick
  looping [] i w h = (refl, refl)
  looping (call_start ∷ cs) i w (h, hs) = cc
  looping (call_stop exited ∷ cs) i w (h, hs) = silent cs i (joined exited (some true)) w hs
  looping (sleep_ends ∷ cs) i w (h, hs) =
      let (reports, left) = looping cs i (tick wiring w).1 hs in
      (ap (λ rest. (tick wiring w).0 ∷ rest) reports, left)

  started :
      (cs : List Call) (i : ℕ) (stop_event : Bool) (thread : Option Bool) (w : World E)
      → is_running (service i stop_event thread w).scheduler ≡ false
      → All (λ c. is_start c ≡ false) cs
      → ((perform_all (call_start ∷ cs) (service i stop_event thread w)).0
          ≡ (run wiring (answers cs) w).0)
        × ((perform_all (call_start ∷ cs) (service i stop_event thread w)).1.world
            ≡ (run wiring (answers cs) w).1)
  unfolding start is_running
  started cs i stop_event none w idle h = looping cs i w h
  started cs i stop_event (some false) w idle h = looping cs i w h
  started cs i stop_event (some true) w idle h = cc

  -- A start while no thread is alive, also after a stop, and then any sequence of stops and ends
  -- of sleeps, makes the ticks of the loop and leaves its world, where the sleeps of the loop end
  -- by their timeouts up to the first stop, which ends the loop.
  pub start_loops :
      (cs : List Call) (v : Service E)
      → is_running v.scheduler ≡ false
      → All (λ c. is_start c ≡ false) cs
      → ((perform_all (call_start ∷ cs) v).0 ≡ (run wiring (answers cs) v.world).0)
        × ((perform_all (call_start ∷ cs) v).1.world ≡ (run wiring (answers cs) v.world).1)
  start_loops cs v idle h =
      started cs v.scheduler.interval v.scheduler.stop_event v.scheduler.thread v.world idle h
