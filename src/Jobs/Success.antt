-- ===== src/Jobs/Success.antt =====
-- The steps of a full refresh of src/project_knowledge_mcp/ingestion_coordinator.py that
-- returned.
pub mod Publishes
pub mod Single
pub mod Others
use mathlib.Core.Path.{subst}
use gitlab_knowledege.Common.{
  ℕ, String, ◌≡◌, refl, sym, ap, ◌∙◌, Bool, true, false, Option, none, some, List, [], ◌∷◌, arith,
  Bool-cases, inl, inr, if◌then◌else◌,
}
use gitlab_knowledege.Exec.{
  Error, value_error, Outcome, returned, raised, Exec, final, raise, resume, handle, catch, finally,
  ◌>>=◌, ◌>>◌,
}
use gitlab_knowledege.Exec.Inversion.{bind_returned}
use gitlab_knowledege.Exec.Relates.{
  IsPreorder, Relates, Relates-pure, Relates-raise, Relates-if, Relates-bind,
}
use gitlab_knowledege.Models.{SnapshotTrigger, EnumeratedProject, ProjectProfile, full, completed}
use gitlab_knowledege.Store.Invariant.{IsValid, ReaderSafe-IsPreorder}
use gitlab_knowledege.Store.Rows.{scan}
use gitlab_knowledege.Store.Tables.{
  Tables, KnowledgeStore, find_snapshot, status_of, execute, require_in_progress,
}
use gitlab_knowledege.Store.Tables.Rules.{
  OnTables, OnTables-IsPreorder, execute-Related, Relates-require,
}
use gitlab_knowledege.Store.Writer.{
  Codec, member, is_empty, begin_snapshot, upsert_profile, write_profile, insert_skip, record_skip,
  commit_snapshot,
}
use gitlab_knowledege.Store.Writer.Opened.{Began}
use gitlab_knowledege.Store.Writer.Begin.{begin_snapshot-Began}
use gitlab_knowledege.Store.Writer.Commit.{Committed, commit_snapshot-Committed, Committed-IsValid}
use gitlab_knowledege.Catalog.{populate_in_scope}
use gitlab_knowledege.Catalog.Populate.{
  populated, populate_in_scope-eq-returned, populate_in_scope-ReaderSafe, put_all, scan-populated,
}
use gitlab_knowledege.Coordinator.{JobHandle, try_start, complete, end_job, contains}
use gitlab_knowledege.Jobs.{
  Wiring, World, with_store, with_gate, with_env, on_store, on_gate, on_env, read_clock, commit_now,
  is_gitlab_error, analyze_at, analyze_enumerated_projects, abort_now, rejected, start_job,
  gitlab_failure, run_job, full_body, full_refresh,
}
use gitlab_knowledege.Jobs.Isolation.{Safe, analyze_enumerated_projects-Safe, start_job-Safe}
use gitlab_knowledege.Jobs.Rules.{InStore, InStore-IsPreorder, Relates-on_store, Relates-on_env}

-- `b` is `a` but for the profiles and the skips.
pub record Analyzed (a b : Tables) : Type 0 where
  pub snapshots : b.snapshots ≡ a.snapshots
  pub catalog : b.project_catalog ≡ a.project_catalog
  pub current : b.current_snapshot ≡ a.current_snapshot

Analyzed-IsPreorder : IsPreorder Analyzed
Analyzed-IsPreorder = record {
  reflexive = λ a. record { snapshots = refl; catalog = refl; current = refl };
  transitive = λ h k. record {
    snapshots = k.snapshots ∙ h.snapshots;
    catalog = k.catalog ∙ h.catalog;
    current = k.current ∙ h.current;
  };
}

require_execute-Analyzed :
    (s : ℕ) (m : Exec Tables (Unit {0}))
    → Relates Analyzed m
    → Relates (OnTables Analyzed) (require_in_progress s >> execute m)
require_execute-Analyzed s m h =
    Relates-require Analyzed-IsPreorder s (execute m)
      (λ b _. execute-Related Analyzed-IsPreorder m b (h.at b.tables))

write_profile-Analyzed :
    (codec : Codec) (s : ℕ) (profile : ProjectProfile) (produced_at : ℕ) (sha : String)
    → Relates (OnTables Analyzed) (write_profile codec s profile produced_at sha)
unfolding write_profile upsert_profile
write_profile-Analyzed codec s profile produced_at sha =
    Relates-if (OnTables-IsPreorder Analyzed-IsPreorder) (is_empty sha) _ _
      (Relates-raise (OnTables-IsPreorder Analyzed-IsPreorder) value_error)
      (require_execute-Analyzed s (upsert_profile codec s profile produced_at sha)
        (record { at = λ t. record { snapshots = refl; catalog = refl; current = refl } }))

record_skip-Analyzed :
    (s p : ℕ) (reason : String) (detail : Option String)
    → Relates (OnTables Analyzed) (record_skip s p reason detail)
unfolding record_skip insert_skip
record_skip-Analyzed s p reason detail =
    Relates-if (OnTables-IsPreorder Analyzed-IsPreorder) (is_empty reason) _ _
      (Relates-raise (OnTables-IsPreorder Analyzed-IsPreorder) value_error)
      (require_execute-Analyzed s (insert_skip s p reason detail)
        (record { at = λ t. record { snapshots = refl; catalog = refl; current = refl } }))

module _ {E A : Type 0} where
  with_store-eq-returned :
      (w v : World E) (o : Outcome KnowledgeStore A) (a : A)
      → with_store w o ≡ returned a v
      → o ≡ returned a v.store
  with_store-eq-returned w v (returned b s) a h = ground arith
  with_store-eq-returned w v (raised e s) a h = absurd (ground arith)

  -- A method of the store that returned, among the procedures.
  pub on_store-eq-returned :
      (m : Exec KnowledgeStore A) (w v : World E) (a : A)
      → on_store m w ≡ returned a v
      → m w.store ≡ returned a v.store
  unfolding on_store
  on_store-eq-returned m w v a h = with_store-eq-returned w v (m w.store) a h

  with_env-eq-returned :
      (w v : World E) (o : Outcome E A) (a : A)
      → with_env w o ≡ returned a v
      → (o ≡ returned a v.env) × (v.store ≡ w.store)
  with_env-eq-returned w v (returned b s) a h = (ground arith, ground arith)
  with_env-eq-returned w v (raised e s) a h = absurd (ground arith)

  pub on_env-eq-returned :
      (m : Exec E A) (w v : World E) (a : A)
      → on_env m w ≡ returned a v
      → (m w.env ≡ returned a v.env) × (v.store ≡ w.store)
  unfolding on_env
  on_env-eq-returned m w v a h = with_env-eq-returned w v (m w.env) a h

module _ {E : Type 0} (k : Wiring E) where
  order : IsPreorder (InStore {E = E} Analyzed)
  order = InStore-IsPreorder Analyzed-IsPreorder

  analyze_at-Analyzed :
      (s : ℕ) (p : EnumeratedProject) (sha : Option String)
      → Relates (InStore Analyzed) (analyze_at k s p sha)
  unfolding analyze_at
  analyze_at-Analyzed s p none =
      Relates-on_store Analyzed-IsPreorder _ (record_skip-Analyzed s p.gitlab_project_id _ _)
  analyze_at-Analyzed s p (some sha) =
      Relates-bind order (on_env (k.fetch_repository_contents p.gitlab_project_id sha)) _
        (Relates-on_env Analyzed-IsPreorder _)
        (λ contents. Relates-bind order _ _ (Relates-on_env Analyzed-IsPreorder _) (λ profile.
          Relates-on_store Analyzed-IsPreorder _
            (write_profile-Analyzed k.codec s profile profile.produced_at sha)))

  pub analyze_enumerated_projects-Analyzed :
      (s : ℕ) (ps : List EnumeratedProject)
      → Relates (InStore Analyzed) (analyze_enumerated_projects k s ps)
  unfolding analyze_enumerated_projects
  analyze_enumerated_projects-Analyzed s [] = Relates-pure order tt
  analyze_enumerated_projects-Analyzed s (p ∷ ps) =
      Relates-bind order (analyze_at k s p p.analysis_branch_commit_sha) _
        (analyze_at-Analyzed s p p.analysis_branch_commit_sha)
        (λ _. analyze_enumerated_projects-Analyzed s ps)

  pub commit_now-Committed :
      (s : ℕ) (w v : World E)
      → IsValid w.store.tables
      → commit_now k s w ≡ returned tt v
      → (now : ℕ) × Committed s now w.store.tables v.store.tables
  unfolding commit_now read_clock
  commit_now-Committed s w v valid h = bind_returned (read_clock k) _ w tt v h (λ t u read rest.
      let same : u.store ≡ w.store = ground arith in
      let done : commit_snapshot s t u.store ≡ returned tt v.store =
        on_store-eq-returned (commit_snapshot s t) u v tt rest in
      (
        t,
        subst (λ a. Committed s t a.tables v.store.tables) same
            (commit_snapshot-Committed s t u.store v.store (rw same valid) done),
      ))
