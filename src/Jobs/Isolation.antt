-- ===== src/Jobs/Isolation.antt =====
-- The steps of a refresh in src/project_knowledge_mcp/ingestion_coordinator.py before the
-- commit, and what readers see of them.
use gitlab_knowledege.Common.{ℕ, String, Option, none, some, List, [], ◌∷◌}
use gitlab_knowledege.Exec.{Error}
use gitlab_knowledege.Exec.Relates.{
  IsPreorder, Relates, Relates-pure, Relates-raise, Relates-if, Relates-bind, Relates-catch,
  Relates-finally,
}
use gitlab_knowledege.Models.{SnapshotTrigger, EnumeratedProject}
use gitlab_knowledege.Store.Invariant.{ReaderSafe, ReaderSafe-IsPreorder}
use gitlab_knowledege.Store.Writer.{member}
use gitlab_knowledege.Store.Writer.Keeps.{
  begin_snapshot-ReaderSafe, write_profile-ReaderSafe, record_skip-ReaderSafe,
  abort_snapshot-ReaderSafe,
}
use gitlab_knowledege.Coordinator.{JobHandle, try_start, abort}
use gitlab_knowledege.Jobs.{
  Wiring, World, on_gate, on_env, read_clock, abort_now, analyze_at, analyze_enumerated_projects,
  rejected, start_job, gitlab_failure,
}
use gitlab_knowledege.Jobs.Rules.{
  InStore, InStore-IsPreorder, Relates-on_store, Relates-on_gate, Relates-on_env,
  Relates-read_clock,
}

abbrev pub Safe : {E : Type 0} → World E → World E → Type 0
Safe = InStore ReaderSafe

module _ {E : Type 0} (k : Wiring E) where
  order : IsPreorder (Safe {E = E})
  order = InStore-IsPreorder ReaderSafe-IsPreorder

  pub abort_now-Safe : (s : ℕ) → Relates Safe (abort_now k s)
  unfolding abort_now
  abort_now-Safe s =
      Relates-bind order (read_clock k) _ (Relates-read_clock ReaderSafe-IsPreorder k)
        (λ t. Relates-on_store ReaderSafe-IsPreorder _ (abort_snapshot-ReaderSafe s t))

  analyze_at-Safe :
      (s : ℕ) (p : EnumeratedProject) (sha : Option String) → Relates Safe (analyze_at k s p sha)
  unfolding analyze_at
  analyze_at-Safe s p none =
      Relates-on_store ReaderSafe-IsPreorder _ (record_skip-ReaderSafe s p.gitlab_project_id _ _)
  analyze_at-Safe s p (some sha) =
      Relates-bind order (on_env (k.fetch_repository_contents p.gitlab_project_id sha)) _
        (Relates-on_env ReaderSafe-IsPreorder _)
        (λ contents. Relates-bind order _ _ (Relates-on_env ReaderSafe-IsPreorder _) (λ profile.
          Relates-on_store ReaderSafe-IsPreorder _
            (write_profile-ReaderSafe s k.codec profile profile.produced_at sha)))

  pub analyze_enumerated_projects-Safe :
      (s : ℕ) (ps : List EnumeratedProject) → Relates Safe (analyze_enumerated_projects k s ps)
  unfolding analyze_enumerated_projects
  analyze_enumerated_projects-Safe s [] = Relates-pure order tt
  analyze_enumerated_projects-Safe s (p ∷ ps) =
      Relates-bind order (analyze_at k s p p.analysis_branch_commit_sha) _
        (analyze_at-Safe s p p.analysis_branch_commit_sha)
        (λ _. analyze_enumerated_projects-Safe s ps)

  rejected-Safe : (s : ℕ) (e : Error) → Relates Safe (rejected k s e)
  unfolding rejected
  rejected-Safe s e =
      Relates-if order _ _ _
        (Relates-bind order (abort_now k s) _ (abort_now-Safe s) (λ _. Relates-raise order e))
        (Relates-raise order e)

  pub start_job-Safe :
      (trigger : SnapshotTrigger) (parent : Option ℕ) → Relates Safe (start_job k trigger parent)
  unfolding start_job
  start_job-Safe trigger parent =
      Relates-bind order (read_clock k) _ (Relates-read_clock ReaderSafe-IsPreorder k) (λ t.
        Relates-bind order _ _
          (Relates-on_store ReaderSafe-IsPreorder _
            (begin_snapshot-ReaderSafe (member trigger) parent t))
          (λ s.
            Relates-bind order (read_clock k) _ (Relates-read_clock ReaderSafe-IsPreorder k) (λ u.
              Relates-catch order (on_gate (try_start trigger s u)) (rejected k s)
                (Relates-on_gate ReaderSafe-IsPreorder _) (rejected-Safe s))))

  pub gitlab_failure-Safe : (h : JobHandle) (e : Error) → Relates Safe (gitlab_failure k h e)
  unfolding gitlab_failure
  gitlab_failure-Safe h e =
      Relates-if order _ _ _
        (Relates-bind order _ _
          (Relates-finally order (abort_now k h.snapshot_id) (on_gate (abort h))
            (abort_now-Safe h.snapshot_id) (Relates-on_gate ReaderSafe-IsPreorder _))
          (λ _. Relates-raise order e))
        (Relates-raise order e)
