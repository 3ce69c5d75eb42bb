-- ===== src/Store/Writer.antt =====
-- The writer interface of src/project_knowledge_mcp/knowledge_store.py. `now` is what `_now_iso`
-- answers during the call.
pub mod Opened
pub mod Begin
pub mod Commit
pub mod Confined
pub mod Keeps
use gitlab_knowledege.Common.{
  ℕ, String, Bool, true, false, Option, none, some, [], ◌∷◌, ◌++◌, ◌⊎◌, if◌then◌else◌,
}
use gitlab_knowledege.Exec.{
  value_error, runtime_error, integrity_error, returned, raised, Exec, pure, raise, ◌>>=◌, ◌>>◌,
}
use gitlab_knowledege.Models.{
  in_progress, completed, failed, SnapshotTrigger, full, single_project, scheduled, startup_load,
  ProjectProfile,
}
use gitlab_knowledege.Store.Rows.{upsert, insert_select}
use gitlab_knowledege.Store.Tables.{
  SnapshotRow, Tables, KnowledgeStore, find_snapshot, status_of, next_rowid, set_status, execute,
  transaction, require_in_progress,
}
use text.Mathlib.Text.{◌==◌ as str_eq}

-- pydantic's `model_dump_json`, and its `model_validate_json` with the text of its exception.
pub record Codec : Type 0 where
  pub dump : ProjectProfile → String
  pub validate : String → String ⊎ ProjectProfile

-- `SnapshotTrigger | str`
pub data TriggerArgument : Type 0 where
  member : SnapshotTrigger → TriggerArgument
  spelled : String → TriggerArgument

unfoldable pub coerce_trigger : TriggerArgument → Exec KnowledgeStore SnapshotTrigger
coerce_trigger (member t) = pure t
coerce_trigger (spelled s) =
    if str_eq s "full"
    then pure full
    else if str_eq s "single_project"
    then pure single_project
    else if str_eq s "scheduled"
    then pure scheduled
    else if str_eq s "startup_load"
    then pure startup_load
    else raise value_error

-- A parent is required of the trigger `single_project`, and refused for all others.
unfoldable pub check_parent : SnapshotTrigger → Option ℕ → Exec KnowledgeStore (Unit {0})
check_parent single_project none = raise value_error
check_parent single_project (some p) = pure tt
check_parent _ none = pure tt
check_parent _ (some p) = raise value_error

-- REFERENCES snapshots(snapshot_id), with foreign keys on
unfoldable pub parent_exists : Option ℕ → Tables → Bool
parent_exists none t = true
parent_exists (some p) t = elim (find_snapshot p t.snapshots) [ none ↦ false | some _ ↦ true ]

abbrev pub new_snapshot : SnapshotTrigger → Option ℕ → ℕ → Tables → SnapshotRow
new_snapshot trigger parent now t = record {
  snapshot_id = next_rowid t.snapshots;
  started_at = now;
  completed_at = none;
  status = in_progress;
  trigger = trigger;
  parent_snapshot_id = parent;
}

unfoldable pub insert_snapshot : SnapshotTrigger → Option ℕ → ℕ → Exec Tables ℕ
insert_snapshot trigger parent now t =
    if parent_exists parent t
    then returned (next_rowid t.snapshots)
        (record t { snapshots = t.snapshots ++ new_snapshot trigger parent now t ∷ [] })
    else raised (integrity_error "FOREIGN KEY constraint failed") t

unfoldable pub copy_profiles : ℕ → ℕ → Exec Tables (Unit {0})
copy_profiles new parent t = elim (insert_select new parent t.project_profiles) [
  | none ↦ raised (integrity_error "UNIQUE constraint failed") t
  | some rows ↦ returned tt (record t { project_profiles = rows })
]

unfoldable pub copy_catalog : ℕ → ℕ → Exec Tables (Unit {0})
copy_catalog new parent t = elim (insert_select new parent t.project_catalog) [
  | none ↦ raised (integrity_error "UNIQUE constraint failed") t
  | some rows ↦ returned tt (record t { project_catalog = rows })
]

unfoldable pub copy_parent : SnapshotTrigger → Option ℕ → ℕ → Exec KnowledgeStore (Unit {0})
copy_parent single_project (some parent) new = do
  execute (copy_profiles new parent)
  execute (copy_catalog new parent)
copy_parent _ _ new = pure tt

-- The statements between BEGIN and COMMIT of `begin_snapshot`.
unfoldable pub insert_and_copy : SnapshotTrigger → Option ℕ → ℕ → Exec KnowledgeStore ℕ
insert_and_copy trigger parent now = do
  new ← execute (insert_snapshot trigger parent now)
  copy_parent trigger parent new
  pure new

unfoldable pub begin_snapshot : TriggerArgument → Option ℕ → ℕ → Exec KnowledgeStore ℕ
begin_snapshot argument parent now = do
  trigger ← coerce_trigger argument
  check_parent trigger parent
  transaction (insert_and_copy trigger parent now)

unfoldable pub is_empty : String → Bool
is_empty String.[] = true
is_empty _ = false

unfoldable pub upsert_profile : Codec → ℕ → ProjectProfile → ℕ → String → Exec Tables (Unit {0})
upsert_profile codec s profile produced_at commit_sha t = returned tt (record t {
  project_profiles =
      upsert s profile.gitlab_project_id
        (record {
          full_path = profile.full_path;
          analysis_branch = profile.analysis_branch;
          analysis_branch_sha = some commit_sha;
          produced_at = produced_at;
          profile_json = codec.dump profile;
        })
        t.project_profiles;
})

unfoldable pub write_profile :
    Codec → ℕ → ProjectProfile → ℕ → String → Exec KnowledgeStore (Unit {0})
write_profile codec s profile produced_at commit_sha =
    if is_empty commit_sha
    then raise value_error
    else do require_in_progress s; execute (upsert_profile codec s profile produced_at commit_sha)

unfoldable pub insert_skip : ℕ → ℕ → String → Option String → Exec Tables (Unit {0})
insert_skip s p reason detail t = returned tt (record t {
  ingestion_skips =
      t.ingestion_skips
      ++ record { snapshot_id = s; gitlab_project_id = p; reason = reason; detail = detail } ∷ [];
})

unfoldable pub record_skip : ℕ → ℕ → String → Option String → Exec KnowledgeStore (Unit {0})
record_skip s p reason detail =
    if is_empty reason
    then raise value_error
    else do require_in_progress s; execute (insert_skip s p reason detail)

unfoldable pub mark_failed : ℕ → ℕ → Exec Tables (Unit {0})
mark_failed s now t = returned tt (record t { snapshots = set_status s failed now t.snapshots })

unfoldable pub abort_snapshot : ℕ → ℕ → Exec KnowledgeStore (Unit {0})
abort_snapshot s now = do require_in_progress s; execute (mark_failed s now)

-- UPDATE ... WHERE snapshot_id = s AND status = 'in_progress'; the answer is `rowcount == 1`.
unfoldable pub mark_completed : ℕ → ℕ → Exec Tables Bool
mark_completed s now t = elim (status_of s t.snapshots) [
  | some in_progress ↦
      returned true (record t { snapshots = set_status s completed now t.snapshots })
  | _ ↦ returned false t
]

-- UPDATE current_snapshot SET snapshot_id = s WHERE id = 1: a missing row stays missing.
unfoldable pub move_pointer : ℕ → Exec Tables (Unit {0})
move_pointer s t = elim t.current_snapshot [
  | none ↦ returned tt t
  | some _ ↦ returned tt (record t { current_snapshot = some (some s) })
]

-- The statements between BEGIN and COMMIT of `commit_snapshot`.
unfoldable pub publish : ℕ → ℕ → Exec KnowledgeStore (Unit {0})
publish s now = do
  flipped ← execute (mark_completed s now)
  if flipped then execute (move_pointer s) else raise runtime_error

unfoldable pub commit_snapshot : ℕ → ℕ → Exec KnowledgeStore (Unit {0})
commit_snapshot s now = do require_in_progress s; transaction (publish s now)
