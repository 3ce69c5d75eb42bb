-- ===== src/Tests/Gates.antt =====
-- Examples on the gate and the slot.
use gitlab_knowledege.Common.{ℕ, ◌<◌, ◌≡◌, ◌≢◌, refl, true, false, none, some, ◌↔◌}
use gitlab_knowledege.Exec.{
  Error, ingestion_in_progress, other, returned, raised, final, catch, ◌>>=◌,
}
use gitlab_knowledege.Models.{full}
use gitlab_knowledege.Store.Tables.{find_snapshot, next_rowid, execute, transaction, atomically}
use gitlab_knowledege.Store.Writer.{
  coerce_trigger, check_parent, parent_exists, insert_snapshot, copy_parent, insert_and_copy,
  begin_snapshot,
}
use gitlab_knowledege.Coordinator.{JobHandle, Coordinator, idle_coordinator, contains, try_start}
use gitlab_knowledege.Coordinator.SingleFlight.{
  Step, Reach, idle-IsExclusive, single_flight, start_iff_all_ended,
}
use gitlab_knowledege.Jobs.{
  World, is_gitlab_error, on_store, on_gate, on_env, read_clock, start_job, full_body, full_refresh,
  single_refresh,
}
use gitlab_knowledege.Jobs.Slot.Release.{
  IsFreed, IsPointerFreed, full_refresh_frees, single_refresh_frees,
}
use gitlab_knowledege.Jobs.Slot.Leak.{full_refresh_leaks}
use gitlab_knowledege.Tests.{crashing, unauthorized, new_world, world_of, published, open_store}
use gitlab_knowledege.Store.Reader.{get_current_snapshot_id}

abbrev one_job : Coordinator
one_job = final (try_start full 1 4 idle_coordinator)

one_start : Reach idle_coordinator one_job
one_start = Reach.next Reach.here (Step.start idle_coordinator full 1 4)

single_flight_example :
    ((h : JobHandle) → one_job.running ≡ some h → contains h.handle_id one_job.ended ≡ false)
    × ((i j : ℕ)
        → i < one_job.created
        → j < one_job.created
        → contains i one_job.ended ≡ false
        → contains j one_job.ended ≡ false
        → i ≡ j)
single_flight_example = single_flight one_start

start_iff_all_ended_example :
    (try_start full 2 6 one_job ≢ raised ingestion_in_progress one_job)
    ↔ ((i : ℕ) → i < one_job.created → contains i one_job.ended ≡ true)
start_iff_all_ended_example = start_iff_all_ended full 2 6 one_start

full_refresh_frees_example :
    IsFreed
      (start_job unauthorized full none new_world)
      (λ h. full_body unauthorized h.snapshot_id)
      (final (full_refresh unauthorized new_world))
full_refresh_frees_example = full_refresh_frees unauthorized new_world idle-IsExclusive refl

single_refresh_frees_example :
    IsPointerFreed unauthorized 7
      (world_of published)
      (get_current_snapshot_id (open_store published))
      (final (single_refresh unauthorized 7 (world_of published)))
single_refresh_frees_example =
    single_refresh_frees unauthorized 7 (world_of published) idle-IsExclusive refl

abbrev started_world : World ℕ
started_world = final (start_job crashing full none new_world)

abbrev first_handle : JobHandle
first_handle = record { handle_id = 0; snapshot_id = 1; trigger = full; started_at = 11 }

crashing_starts : start_job crashing full none new_world ≡ returned first_handle started_world
unfolding start_job read_clock on_store on_gate catch ◌>>=◌ execute transaction atomically
    find_snapshot next_rowid coerce_trigger check_parent parent_exists insert_snapshot copy_parent
    insert_and_copy begin_snapshot try_start
crashing_starts = refl

abbrev crashed_world : World ℕ
crashed_world = final (full_body crashing 1 started_world)

body_crashes : full_body crashing 1 started_world ≡ raised (other "KeyError") crashed_world
unfolding full_body on_env ◌>>=◌ start_job read_clock on_store on_gate catch execute transaction
    atomically find_snapshot next_rowid coerce_trigger check_parent parent_exists insert_snapshot
    copy_parent insert_and_copy begin_snapshot try_start
body_crashes = refl

no_gitlab_error : is_gitlab_error (other "KeyError") ≡ false
unfolding is_gitlab_error
no_gitlab_error = refl

full_refresh_leaks_example :
    (full_refresh crashing new_world ≡ raised (other "KeyError") crashed_world)
    × (crashed_world.coordinator.running ≡ some first_handle)
    × ((later : World ℕ)
        → later.coordinator ≡ crashed_world.coordinator
        → (d : Error) × (last : World ℕ) × (full_refresh crashing later ≡ raised d last)
          × (last.coordinator ≡ crashed_world.coordinator))
full_refresh_leaks_example =
    full_refresh_leaks crashing new_world started_world crashed_world first_handle
      (other "KeyError") idle-IsExclusive refl crashing_starts body_crashes no_gitlab_error
