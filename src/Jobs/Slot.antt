-- ===== src/Jobs/Slot.antt =====
-- Who holds the slot before and after each procedure of a refresh in
-- src/project_knowledge_mcp/ingestion_coordinator.py.
pub mod Release
pub mod Leak
use mathlib.Core.Path.{subst}
use gitlab_knowledege.Common.{
  ℕ, String, ◌≡◌, refl, sym, ap, ◌∙◌, Bool, true, false, Option, none, some, List, [], ◌∷◌, arith,
  Bool-cases, ◌⊎◌, inl, inr, if◌then◌else◌, ==-refl,
}
use gitlab_knowledege.Exec.{
  Error, project_not_in_scope, Outcome, returned, raised, Exec, final, pure, raise, resume, handle,
  catch, still_returns, still_raises, finish, finally, ◌>>=◌, ◌>>◌,
}
use gitlab_knowledege.Exec.Relates.{
  IsPreorder, Relates, Relates-pure, Relates-raise, Relates-if, Relates-bind, Relates-finally,
}
use gitlab_knowledege.Models.{SnapshotTrigger, EnumeratedProject, full, single_project}
use gitlab_knowledege.Store.Writer.{member, begin_snapshot, commit_snapshot}
use gitlab_knowledege.Catalog.{populate_in_scope}
use gitlab_knowledege.Coordinator.{
  JobHandle, Coordinator, contains, try_start, abort, complete, end_job,
}
use gitlab_knowledege.Coordinator.SingleFlight.{
  IsExclusive, try_start_idle, end_job_ended, end_job_active,
}
use gitlab_knowledege.Jobs.{
  Wiring, World, with_gate, on_store, on_gate, on_env, read_clock, abort_now, commit_now,
  analyze_at, analyze_enumerated_projects, rejected, start_job, full_body, find_project,
  refresh_found, single_body,
}
use gitlab_knowledege.Jobs.Busy.{SameGate-abort_now}
use gitlab_knowledege.Jobs.Rules.{
  SameGate, SameGate-IsPreorder, SameGate-on_store, SameGate-on_env, SameGate-read_clock,
}

-- The job of the handle runs, and nobody has ended it.
abbrev pub Holds : JobHandle → Coordinator → Type 0
Holds h c = (c.running ≡ some h) × (contains h.handle_id c.ended ≡ false)

-- The job has ended, and the slot is free.
abbrev pub Over : JobHandle → Coordinator → Type 0
Over h c = (c.running ≡ none) × (contains h.handle_id c.ended ≡ true)

abbrev pub KeepsSlot : {E : Type 0} → JobHandle → World E → World E → Type 0
KeepsSlot h a b =
    Holds h a.coordinator ⊎ Over h a.coordinator → Holds h b.coordinator ⊎ Over h b.coordinator

abbrev pub Ends : {E : Type 0} → JobHandle → World E → World E → Type 0
Ends h a b = Holds h a.coordinator ⊎ Over h a.coordinator → Over h b.coordinator

pub end_job-Over :
    (h : JobHandle) (c : Coordinator) → Holds h c ⊎ Over h c → Over h (final (end_job h c))
unfolding contains
end_job-Over h c (inl (on, active)) =
    rw (end_job_active c h h active on refl, ==-refl h.handle_id) (refl, refl)
end_job-Over h c (inr (off, over)) = rw (end_job_ended c h over) (off, over)

module _ {E : Type 0} (h : JobHandle) where
  pub KeepsSlot-IsPreorder : IsPreorder (KeepsSlot {E = E} h)
  KeepsSlot-IsPreorder = record { reflexive = λ a x. x; transitive = λ f g x. g (f x) }

  keeps_of_same : (a b : World E) → SameGate a b → KeepsSlot h a b
  keeps_of_same a b e x = subst (λ c. Holds h c ⊎ Over h c) (sym e) x

  pub KeepsSlot-of_SameGate :
      {A : Type 0} (m : Exec (World E) A) → Relates SameGate m → Relates (KeepsSlot h) m
  KeepsSlot-of_SameGate m r = record { at = λ w. keeps_of_same w (final (m w)) (r.at w) }

  final-with_gate :
      {A : Type 0} (w : World E) (o : Outcome Coordinator A)
      → (final (with_gate w o)).coordinator ≡ final o
  final-with_gate w (returned a c) = refl
  final-with_gate w (raised e c) = refl

  pub end_job-Ends : Relates (Ends h) (on_gate {E = E} (end_job h))
  unfolding on_gate
  end_job-Ends = record {
    at = λ w x. rw (final-with_gate w (end_job h w.coordinator)) (end_job-Over h w.coordinator x);
  }

  pub KeepsSlot-of_Ends :
      {A : Type 0} (m : Exec (World E) A) → Relates (Ends h) m → Relates (KeepsSlot h) m
  KeepsSlot-of_Ends m r = record { at = λ w x. inr (r.at w x) }

module _ {E : Type 0} (k : Wiring E) where
  SameGate-commit_now : (s : ℕ) → Relates SameGate (commit_now k s)
  unfolding commit_now
  SameGate-commit_now s =
      Relates-bind SameGate-IsPreorder (read_clock k) _ (SameGate-read_clock k)
        (λ t. SameGate-on_store _)

  SameGate-analyze_at :
      (s : ℕ) (p : EnumeratedProject) (sha : Option String)
      → Relates SameGate (analyze_at k s p sha)
  unfolding analyze_at
  SameGate-analyze_at s p none = SameGate-on_store _
  SameGate-analyze_at s p (some sha) =
      Relates-bind SameGate-IsPreorder
        (on_env (k.fetch_repository_contents p.gitlab_project_id sha)) _ (SameGate-on_env _)
        (λ contents.
          Relates-bind SameGate-IsPreorder _ _ (SameGate-on_env _) (λ profile. SameGate-on_store _))

  SameGate-analyze_enumerated_projects :
      (s : ℕ) (ps : List EnumeratedProject) → Relates SameGate (analyze_enumerated_projects k s ps)
  unfolding analyze_enumerated_projects
  SameGate-analyze_enumerated_projects s [] = Relates-pure SameGate-IsPreorder tt
  SameGate-analyze_enumerated_projects s (p ∷ ps) =
      Relates-bind SameGate-IsPreorder (analyze_at k s p p.analysis_branch_commit_sha) _
        (SameGate-analyze_at s p p.analysis_branch_commit_sha)
        (λ _. SameGate-analyze_enumerated_projects s ps)

  pub SameGate-full_body : (s : ℕ) → Relates SameGate (full_body k s)
  unfolding full_body
  SameGate-full_body s =
      Relates-bind SameGate-IsPreorder (on_env k.enumerate_projects) _ (SameGate-on_env _) (λ ps.
        Relates-bind SameGate-IsPreorder (on_store (populate_in_scope s ps)) _ (SameGate-on_store _)
          (λ _.
            Relates-bind SameGate-IsPreorder (analyze_enumerated_projects k s ps) _
              (SameGate-analyze_enumerated_projects s ps) (λ _. SameGate-commit_now s)))

  module _ (h : JobHandle) where
    final-still_returns :
        {A B : Type 0} (a : A) (o : Outcome (World E) B) → final (still_returns a o) ≡ final o
    final-still_returns a (returned b v) = refl
    final-still_returns a (raised e v) = refl

    final-still_raises :
        (A : Type 0) {B : Type 0} (d : Error) (o : Outcome (World E) B)
        → final (still_raises {A = A} d o) ≡ final o
    final-still_raises A d (returned b v) = refl
    final-still_raises A d (raised e v) = refl

    final-finish :
        {A B : Type 0} (o : Outcome (World E) A) (m : Exec (World E) B)
        → final (finish o m) ≡ final (m (final o))
    final-finish (returned a w) m = final-still_returns a (m w)
    final-finish {A} (raised d w) m = final-still_raises A d (m w)

    -- try: abort_snapshot  finally: abort. The slot is freed whatever the store does.
    pub aborting-Ends : Relates (Ends h) (finally (abort_now k h.snapshot_id) (on_gate (abort h)))
    unfolding finally
    aborting-Ends = record {
      at = λ w x.
          let o = abort_now k h.snapshot_id w in
          rw (final-finish o (on_gate (abort h))) (
            (end_job-Ends h).at (final o)
              ((KeepsSlot-of_SameGate h _ (SameGate-abort_now k h.snapshot_id)).at w x));
    }

    refresh_found-KeepsSlot :
        (p : ℕ) (found : Option EnumeratedProject)
        → Relates (KeepsSlot h) (refresh_found k p h found)
    unfolding refresh_found
    refresh_found-KeepsSlot p none =
        Relates-bind (KeepsSlot-IsPreorder h)
          (finally (abort_now k h.snapshot_id) (on_gate (abort h))) _
          (KeepsSlot-of_Ends h _ aborting-Ends)
          (λ _. Relates-raise (KeepsSlot-IsPreorder h) (project_not_in_scope p))
    refresh_found-KeepsSlot p (some project) = KeepsSlot-of_SameGate h _ (
        Relates-bind SameGate-IsPreorder
          (analyze_enumerated_projects k h.snapshot_id (project ∷ [])) _
          (SameGate-analyze_enumerated_projects h.snapshot_id (project ∷ []))
          (λ _. SameGate-commit_now h.snapshot_id))

    pub single_body-KeepsSlot : (p : ℕ) → Relates (KeepsSlot h) (single_body k p h)
    unfolding single_body
    single_body-KeepsSlot p =
        Relates-bind (KeepsSlot-IsPreorder h) (on_env k.enumerate_projects) _
          (KeepsSlot-of_SameGate h _ (SameGate-on_env _))
          (λ ps. refresh_found-KeepsSlot p (find_project p ps))
