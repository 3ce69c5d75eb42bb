-- ===== src/Coordinator.antt =====
-- The single-flight gate of src/project_knowledge_mcp/ingestion_coordinator.py: `JobHandle` and the
-- state of `IngestionCoordinator`. Each method holds the lock throughout, so it is one step.
pub mod SingleFlight
use gitlab_knowledege.Common.{
  ℕ, suc, Bool, true, false, Option, none, some, List, [], ◌∷◌, ◌||◌, ◌==◌, if◌then◌else◌, not,
}
use gitlab_knowledege.Exec.{ingestion_in_progress, returned, raised, Exec}
use gitlab_knowledege.Models.{SnapshotTrigger}

-- `handle_id` is the identity of the object.
pub record JobHandle : Type 0 where
  pub handle_id : ℕ
  pub snapshot_id : ℕ
  pub trigger : SnapshotTrigger
  pub started_at : ℕ

-- `created` counts the handles made so far, `ended` has the identities whose `_ended` is set.
pub record Coordinator : Type 0 where
  pub running : Option JobHandle
  pub created : ℕ
  pub ended : List ℕ

abbrev pub idle_coordinator : Coordinator
idle_coordinator = record { running = none; created = 0; ended = [] }

pub data CoordinatorState : Type 0 where
  idle running : CoordinatorState

pub record CoordinatorStatus : Type 0 where
  pub state : CoordinatorState
  pub snapshot_id : Option ℕ
  pub trigger : Option SnapshotTrigger
  pub started_at : Option ℕ

unfoldable pub contains : ℕ → List ℕ → Bool
contains i [] = false
contains i (j ∷ l) = (j == i) || contains i l

unfoldable pub is_active : JobHandle → Coordinator → Bool
is_active h c = not (contains h.handle_id c.ended)

unfoldable pub try_start : SnapshotTrigger → ℕ → ℕ → Exec Coordinator JobHandle
try_start trigger snapshot_id started_at c =
    let handle : JobHandle = record {
      handle_id = c.created;
      snapshot_id = snapshot_id;
      trigger = trigger;
      started_at = started_at;
    } in
    elim c.running [
      | some _ ↦ raised ingestion_in_progress c
      | none ↦ returned handle (record c { running = some handle; created = suc c.created })
    ]

unfoldable pub current_state : Coordinator → CoordinatorStatus
current_state c = elim c.running [
  | none ↦ record { state = idle; snapshot_id = none; trigger = none; started_at = none }
  | some h ↦ record {
    state = running;
    snapshot_id = some h.snapshot_id;
    trigger = some h.trigger;
    started_at = some h.started_at;
  }
]

unfoldable pub is_idle : Coordinator → Bool
is_idle c = elim c.running [ none ↦ true | some _ ↦ false ]

unfoldable pub release : JobHandle → Coordinator → Coordinator
release h c = elim c.running [
  | none ↦ c
  | some r ↦ if r.handle_id == h.handle_id then record c { running = none } else c
]

-- `_end`, which `complete` and `abort` both call.
unfoldable pub end_job : JobHandle → Exec Coordinator (Unit {0})
unfolding release is_active contains
end_job h c =
    if is_active h c
    then returned tt (release h (record c { ended = h.handle_id ∷ c.ended }))
    else returned tt c

abbrev pub complete : JobHandle → Exec Coordinator (Unit {0})
complete = end_job

abbrev pub abort : JobHandle → Exec Coordinator (Unit {0})
abort = end_job
