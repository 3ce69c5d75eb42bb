-- ===== src/Jobs/Slot/Release.antt =====
-- The slot after a refresh of src/project_knowledge_mcp/ingestion_coordinator.py.
use gitlab_knowledege.Common.{
  ℕ, Bool, ◌≡◌, refl, ◌∙◌, if◌then◌else◌, true, false, Option, none, some, arith, Bool-cases, ◌⊎◌,
  inl, inr,
}
use gitlab_knowledege.Exec.{
  Error, project_not_in_scope, Outcome, returned, raised, Exec, final, raise, resume, handle, catch,
  finally, ◌>>=◌,
}
use gitlab_knowledege.Exec.Relates.{Relates}
use gitlab_knowledege.Models.{SnapshotTrigger, full, single_project}
use gitlab_knowledege.Store.Tables.{KnowledgeStore}
use gitlab_knowledege.Store.Writer.{member, begin_snapshot}
use gitlab_knowledege.Store.Reader.{get_current_snapshot_id}
use gitlab_knowledege.Catalog.{is_in_scope}
use gitlab_knowledege.Coordinator.{JobHandle, Coordinator, contains, abort, complete}
use gitlab_knowledege.Coordinator.SingleFlight.{IsExclusive, try_start_idle}
use gitlab_knowledege.Jobs.{
  Wiring, World, is_gitlab_error, with_store, on_store, on_gate, read_clock, abort_now, start_job,
  gitlab_failure, run_job, full_body, full_refresh, single_body, single_job, single_refresh_in,
  single_refresh,
}
use gitlab_knowledege.Jobs.Rules.{SameGate, SameGate-on_store, SameGate-read_clock}
use gitlab_knowledege.Jobs.Slot.{
  Holds, Over, KeepsSlot, KeepsSlot-of_SameGate, end_job-Ends, SameGate-full_body, aborting-Ends,
  single_body-KeepsSlot,
}

-- The gate is as a start leaves it: held by the handle that came back, or as it was.
abbrev pub Started : {E : Type 0} → World E → Outcome (World E) JobHandle → Type 0
Started w (returned h v) = Holds h v.coordinator
Started w (raised e v) = SameGate w v

-- No job holds the slot.
abbrev pub IsIdle : {E : Type 0} → World E → Type 0
IsIdle w = w.coordinator.running ≡ none

-- The body of a job came out with an exception that the refresh does not catch.
abbrev pub IsUncaught : {E : Type 0} → Outcome (World E) (Unit {0}) → Type 0
IsUncaught (returned a v) = ⊥
IsUncaught (raised e v) = is_gitlab_error e ≡ false

-- The slot is free, or a job has started whose body raised an exception that is not caught.
abbrev pub IsFreed :
    {E : Type 0}
    → Outcome (World E) JobHandle
    → (JobHandle → Exec (World E) (Unit {0}))
    → World E
    → Type 0
IsFreed (returned h v) body after = IsIdle after ⊎ IsUncaught (body h v)
IsFreed (raised e v) body after = IsIdle after

module _ {E : Type 0} where
  Started-moved :
      (w v : World E) (o : Outcome (World E) JobHandle) → SameGate w v → Started v o → Started w o
  Started-moved w v (returned h u) e r = r
  Started-moved w v (raised d u) e r = r ∙ e

  module _ {A : Type 0} where
    resume-Started :
        (w : World E) (o : Outcome (World E) A) (f : A → Exec (World E) JobHandle)
        → SameGate w (final o)
        → ((x : A) (v : World E) → SameGate w v → Started v (f x v))
        → Started w (resume o f)
    resume-Started w (returned x v) f h k = Started-moved w v (f x v) h (k x v h)
    resume-Started w (raised e v) f h k = h

    then-Started :
        (m : Exec (World E) A) (f : A → Exec (World E) JobHandle) (w : World E)
        → Relates SameGate m
        → ((x : A) (v : World E) → SameGate w v → Started v (f x v))
        → Started w ((m >>= f) w)
    unfolding ◌>>=◌
    then-Started m f w km kf = resume-Started w (m w) f (km.at w) kf

  resume-IsFreed :
      (w : World E) (o : Outcome (World E) JobHandle) (body : JobHandle → Exec (World E) (Unit {0}))
      (f : JobHandle → Exec (World E) (Unit {0}))
      → Started w o
      → IsIdle w
      → ((h : JobHandle) (v : World E)
          → Holds h v.coordinator
          → IsIdle (final (f h v)) ⊎ IsUncaught (body h v))
      → IsFreed o body (final (resume o f))
  resume-IsFreed w (returned h v) body f s free k = k h v s
  resume-IsFreed w (raised e v) body f s free k = cc

-- The next handle has not ended.
pub unused : (c : Coordinator) → IsExclusive c → contains c.created c.ended ≡ false
unused c valid = elim (Bool-cases (contains c.created c.ended)) [
  | inl over ↦ absurd (omega (arith, valid.ended_made c.created over))
  | inr new ↦ new
]

module _ {E : Type 0} (k : Wiring E) where
  -- On an idle gate, a start either takes the slot or leaves the gate alone.
  pub start_job-Started :
      (trigger : SnapshotTrigger) (parent : Option ℕ) (w : World E)
      → IsIdle w
      → contains w.coordinator.created w.coordinator.ended ≡ false
      → Started w (start_job k trigger parent w)
  unfolding start_job on_gate catch
  start_job-Started trigger parent w free fresh =
      then-Started (read_clock k) _ w (SameGate-read_clock k) (λ t a ha.
        then-Started (on_store (begin_snapshot (member trigger) parent t)) _ a (SameGate-on_store _)
          (λ s b hb. then-Started (read_clock k) _ b (SameGate-read_clock k) (λ u c hc.
            let same : c.coordinator ≡ w.coordinator = hc ∙ hb ∙ ha in
            let idle : c.coordinator.running ≡ none = cc in
            let unused : contains c.coordinator.created c.coordinator.ended ≡ false =
              rw same fresh in
            rw (try_start_idle c.coordinator trigger s u idle) (refl, unused))))

  after_error :
      (h : JobHandle) (o : Outcome (World E) (Unit {0})) (e : Error)
      → Over h (final o).coordinator
      → IsIdle (final (resume (resume o (λ _. raise {A = Unit {0}} e)) (λ _. on_gate (complete h))))
  unfolding raise
  after_error h (returned _ v) e over = over.0
  after_error h (raised d v) e over = over.0

  after_body :
      (h : JobHandle) (o : Outcome (World E) (Unit {0}))
      → Holds h (final o).coordinator ⊎ Over h (final o).coordinator
      → IsIdle (final (resume (handle o (gitlab_failure k h)) (λ _. on_gate (complete h))))
        ⊎ IsUncaught o
  unfolding gitlab_failure ◌>>=◌
  after_body h (returned _ v) x = inl ((end_job-Ends h).at v x).0
  after_body h (raised e v) x = elim (Bool-cases (is_gitlab_error e)) [
    | inl is ↦ inl (
        rw is (
          after_error h (finally (abort_now k h.snapshot_id) (on_gate (abort h)) v) e
            ((aborting-Ends k h).at v x)))
    | inr other ↦ inr other
  ]

  job-IsFreed :
      (trigger : SnapshotTrigger) (parent : Option ℕ) (body : JobHandle → Exec (World E) (Unit {0}))
      (w : World E)
      → IsExclusive w.coordinator
      → IsIdle w
      → ((h : JobHandle) → Relates (KeepsSlot h) (body h))
      → IsFreed
          (start_job k trigger parent w)
          body
          (final ((start_job k trigger parent >>= λ h. run_job k h (body h)) w))
  unfolding ◌>>=◌ run_job catch
  job-IsFreed trigger parent body w valid free keeps =
      resume-IsFreed w (start_job k trigger parent w) body (λ h. run_job k h (body h))
        (start_job-Started trigger parent w free (unused w.coordinator valid)) free
        (λ h v on. after_body h (body h v) ((keeps h).at v (inl on)))

  -- A full refresh that finds the gate idle and in step with its handles (every handle that has
  -- ended was made, and one that was made and has not ended is the running one) leaves it idle,
  -- however the refresh itself comes out: if its job does not start, if its body returns, and if
  -- its body raises one of the two GitLab errors, also where aborting the snapshot then raises
  -- another exception; the only other case is a job that has started and whose body raises an
  -- exception that is no GitLab error.
  pub full_refresh_frees :
      (w : World E)
      → IsExclusive w.coordinator
      → IsIdle w
      → IsFreed
          (start_job k full none w)
          (λ h. full_body k h.snapshot_id)
          (final (full_refresh k w))
  unfolding full_refresh
  full_refresh_frees w valid free =
      job-IsFreed full none (λ h. full_body k h.snapshot_id) w valid free
        (λ h. KeepsSlot-of_SameGate h _ (SameGate-full_body k h.snapshot_id))

  -- What the scope check leads to, from the world that it leaves.
  abbrev pub IsScopeFreed : ℕ → ℕ → World E → Outcome KnowledgeStore Bool → World E → Type 0
  IsScopeFreed p c w (returned true s) after =
      IsFreed (start_job k single_project (some c) (record w { store = s })) (single_body k p) after
  IsScopeFreed p c w (returned false s) after = IsIdle after
  IsScopeFreed p c w (raised e s) after = IsIdle after

  -- What the read of the pointer leads to.
  abbrev pub IsPointerFreed : ℕ → World E → Outcome KnowledgeStore (Option ℕ) → World E → Type 0
  IsPointerFreed p w (returned (some c) s) after = IsScopeFreed p c w (is_in_scope p s) after
  IsPointerFreed p w (returned none s) after = IsIdle after
  IsPointerFreed p w (raised e s) after = IsIdle after

  scope_read :
      (p c : ℕ) (w : World E) (o : Outcome KnowledgeStore Bool)
      → IsExclusive w.coordinator
      → IsIdle w
      → IsScopeFreed p c w o (
          final (
            resume
              (with_store w o)
              (λ inside. if inside then single_job k p c else raise (project_not_in_scope p))))
  unfolding single_job raise
  scope_read p c w (returned true s) valid free =
      job-IsFreed single_project (some c) (single_body k p) (record w { store = s }) valid free
        (λ h. single_body-KeepsSlot k h p)
  scope_read p c w (returned false s) valid free = free
  scope_read p c w (raised e s) valid free = free

  pointer_read :
      (p : ℕ) (w : World E) (o : Outcome KnowledgeStore (Option ℕ))
      → IsExclusive w.coordinator
      → IsIdle w
      → IsPointerFreed p w o (final (resume (with_store w o) (single_refresh_in k p)))
  unfolding single_refresh_in raise on_store ◌>>=◌
  pointer_read p w (returned (some c) s) valid free =
      scope_read p c (record w { store = s }) (is_in_scope p s) valid free
  pointer_read p w (returned none s) valid free = free
  pointer_read p w (raised e s) valid free = free

  -- A refresh of one project that finds the gate idle and in step with its handles (every handle
  -- that has ended was made, and one that was made and has not ended is the running one) leaves
  -- it idle, however the refresh itself comes out: if reading the pointer or the scope raises, if
  -- there is no snapshot or the project is not in scope, if its job does not start, if its body
  -- returns, and if its body raises one of the two GitLab errors, also where aborting the
  -- snapshot then raises another exception; the only other case is a job that has started and
  -- whose body raises an exception that is no GitLab error.
  pub single_refresh_frees :
      (p : ℕ) (w : World E)
      → IsExclusive w.coordinator
      → IsIdle w
      → IsPointerFreed p w (get_current_snapshot_id w.store) (final (single_refresh k p w))
  unfolding single_refresh on_store ◌>>=◌
  single_refresh_frees p w valid free =
      pointer_read p w (get_current_snapshot_id w.store) valid free
