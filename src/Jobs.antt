-- ===== src/Jobs.antt =====
-- The refresh procedures of src/project_knowledge_mcp/ingestion_coordinator.py over the gate, the
-- store and the collaborators. `E` is the state of what the collaborators reach: the GitLab server,
-- the network and the clock. The `snapshot_id` of a procedure is the one that its handle carries.
pub mod Rules
pub mod Isolation
pub mod Failure
pub mod Busy
pub mod Slot
pub mod Success
use Prim.Native.String.{◌++◌}
use gitlab_knowledege.Common.{
  ℕ, String, Bool, true, false, Option, none, some, List, [], ◌∷◌, ◌||◌, ◌==◌, if◌then◌else◌, not,
  decimal,
}
use gitlab_knowledege.Exec.{
  Error, gitlab_auth, gitlab_group_not_found, ingestion_in_progress, project_not_in_scope,
  runtime_error, Outcome, returned, raised, Exec, pure, raise, catch, finally, ◌>>=◌, ◌>>◌,
}
use gitlab_knowledege.Models.{
  SnapshotTrigger, full, single_project, ProjectProfile, EnumeratedProject, RepositoryContents,
}
use gitlab_knowledege.Store.Tables.{KnowledgeStore}
use gitlab_knowledege.Store.Writer.{
  Codec, TriggerArgument, member, begin_snapshot, write_profile, record_skip, abort_snapshot,
  commit_snapshot,
}
use gitlab_knowledege.Store.Reader.{get_current_snapshot_id}
use gitlab_knowledege.Catalog.{populate_in_scope, is_in_scope}
use gitlab_knowledege.Coordinator.{JobHandle, Coordinator, try_start, complete, abort}

-- The injected collaborators. The GitLab connector and the analyzer may answer anything and raise
-- anything; `now` is the wall clock.
pub record Wiring (E : Type 0) : Type 0 where
  pub enumerate_projects : Exec E (List EnumeratedProject)
  pub fetch_repository_contents : ℕ → String → Exec E RepositoryContents
  pub analyze :
      ℕ → String → String → String → Option String → RepositoryContents → Exec E ProjectProfile
  pub codec : Codec
  pub now : E → ℕ × E

pub record World (E : Type 0) : Type 0 where
  pub coordinator : Coordinator
  pub store : KnowledgeStore
  pub env : E

abbrev pub analysis_branch_missing_reason : String
analysis_branch_missing_reason = "analysis_branch_missing"

-- The exceptions that `except (GitLabAuthError, GitLabGroupNotFoundError)` catches.
unfoldable pub is_gitlab_error : Error → Bool
is_gitlab_error (gitlab_auth n) = true
is_gitlab_error (gitlab_group_not_found g) = true
is_gitlab_error _ = false

-- `except IngestionInProgressError`
unfoldable pub is_in_progress_error : Error → Bool
is_in_progress_error ingestion_in_progress = true
is_in_progress_error _ = false

module _ {E A : Type 0} where
  abbrev pub with_store : World E → Outcome KnowledgeStore A → Outcome (World E) A
  with_store w (returned a s) = returned a (record w { store = s })
  with_store w (raised e s) = raised e (record w { store = s })

  unfoldable pub on_store : Exec KnowledgeStore A → Exec (World E) A
  on_store m w = with_store w (m w.store)

  abbrev pub with_gate : World E → Outcome Coordinator A → Outcome (World E) A
  with_gate w (returned a c) = returned a (record w { coordinator = c })
  with_gate w (raised e c) = raised e (record w { coordinator = c })

  unfoldable pub on_gate : Exec Coordinator A → Exec (World E) A
  on_gate m w = with_gate w (m w.coordinator)

  abbrev pub with_env : World E → Outcome E A → Outcome (World E) A
  with_env w (returned a x) = returned a (record w { env = x })
  with_env w (raised e x) = raised e (record w { env = x })

  unfoldable pub on_env : Exec E A → Exec (World E) A
  on_env m w = with_env w (m w.env)

unfoldable pub find_project : ℕ → List EnumeratedProject → Option EnumeratedProject
find_project p [] = none
find_project p (e ∷ es) = if e.gitlab_project_id == p then some e else find_project p es

-- `_require_collaborators`
unfoldable pub require_collaborators : {E : Type 0} → Option (Wiring E) → Exec (World E) (Wiring E)
require_collaborators none = raise runtime_error
require_collaborators (some k) = pure k

module _ {E : Type 0} (k : Wiring E) where
  unfoldable pub read_clock : Exec (World E) ℕ
  read_clock w = returned (k.now w.env).0 (record w { env = (k.now w.env).1 })

  unfoldable pub abort_now : ℕ → Exec (World E) (Unit {0})
  abort_now s = do t ← read_clock; on_store (abort_snapshot s t)

  unfoldable pub commit_now : ℕ → Exec (World E) (Unit {0})
  commit_now s = do t ← read_clock; on_store (commit_snapshot s t)

  -- The body of the loop for a project with, and without, a commit on the analysis branch.
  unfoldable pub analyze_at : ℕ → EnumeratedProject → Option String → Exec (World E) (Unit {0})
  analyze_at s p none = on_store (
      record_skip s p.gitlab_project_id analysis_branch_missing_reason (
        some (
          "branch '"
          ++ p.analysis_branch_name
          ++ "' missing on project "
          ++ decimal p.gitlab_project_id)))
  analyze_at s p (some commit_sha) = do
    contents ← on_env (k.fetch_repository_contents p.gitlab_project_id commit_sha)
    profile ← on_env (
        k.analyze p.gitlab_project_id p.full_path p.analysis_branch_name commit_sha
          p.repository_description contents)
    on_store (write_profile k.codec s profile profile.produced_at commit_sha)

  unfoldable pub analyze_enumerated_projects :
      ℕ → List EnumeratedProject → Exec (World E) (Unit {0})
  analyze_enumerated_projects s [] = pure tt
  analyze_enumerated_projects s (p ∷ ps) = do
    analyze_at s p p.analysis_branch_commit_sha
    analyze_enumerated_projects s ps

  -- The `except IngestionInProgressError` arm of a start.
  unfoldable pub rejected : ℕ → Error → Exec (World E) JobHandle
  rejected s e = if is_in_progress_error e then (do abort_now s; raise e) else raise e

  -- Opens the snapshot, then takes the slot; without the slot the snapshot is aborted.
  unfoldable pub start_job : SnapshotTrigger → Option ℕ → Exec (World E) JobHandle
  start_job trigger parent = do
    t ← read_clock
    s ← on_store (begin_snapshot (member trigger) parent t)
    u ← read_clock
    catch (on_gate (try_start trigger s u)) (rejected s)

  -- The `except (GitLabAuthError, GitLabGroupNotFoundError)` arm.
  unfoldable pub gitlab_failure : JobHandle → Error → Exec (World E) (Unit {0})
  gitlab_failure h e =
      if is_gitlab_error e
      then (do finally (abort_now h.snapshot_id) (on_gate (abort h)); raise e)
      else raise e

  -- try: body  except ...  else: handle.complete()
  unfoldable pub run_job : JobHandle → Exec (World E) (Unit {0}) → Exec (World E) (Unit {0})
  run_job h body = do catch body (gitlab_failure h); on_gate (complete h)

  unfoldable pub full_body : ℕ → Exec (World E) (Unit {0})
  full_body s = do
    enumerated ← on_env k.enumerate_projects
    on_store (populate_in_scope s enumerated)
    analyze_enumerated_projects s enumerated
    commit_now s

  unfoldable pub full_refresh : Exec (World E) (Unit {0})
  full_refresh = do h ← start_job full none; run_job h (full_body h.snapshot_id)

  unfoldable pub refresh_found :
      ℕ → JobHandle → Option EnumeratedProject → Exec (World E) (Unit {0})
  refresh_found p h none = do
    finally (abort_now h.snapshot_id) (on_gate (abort h))
    raise (project_not_in_scope p)
  refresh_found p h (some project) = do
    analyze_enumerated_projects h.snapshot_id (project ∷ [])
    commit_now h.snapshot_id

  unfoldable pub single_body : ℕ → JobHandle → Exec (World E) (Unit {0})
  single_body p h = do
    enumerated ← on_env k.enumerate_projects
    refresh_found p h (find_project p enumerated)

  -- Behind the scope check.
  unfoldable pub single_job : ℕ → ℕ → Exec (World E) (Unit {0})
  single_job p current = do h ← start_job single_project (some current); run_job h (single_body p h)

  unfoldable pub single_refresh_in : ℕ → Option ℕ → Exec (World E) (Unit {0})
  single_refresh_in p none = raise (project_not_in_scope p)
  single_refresh_in p (some current) = do
    inside ← on_store (is_in_scope p)
    if inside then single_job p current else raise (project_not_in_scope p)

  unfoldable pub single_refresh : ℕ → Exec (World E) (Unit {0})
  single_refresh p = do current ← on_store get_current_snapshot_id; single_refresh_in p current

unfoldable pub start_full_refresh : {E : Type 0} → Option (Wiring E) → Exec (World E) (Unit {0})
start_full_refresh wiring = do k ← require_collaborators wiring; full_refresh k

unfoldable pub start_single_project_refresh :
    {E : Type 0} → Option (Wiring E) → ℕ → Exec (World E) (Unit {0})
start_single_project_refresh wiring p = do k ← require_collaborators wiring; single_refresh k p
