-- ===== src/Jobs/Slot/Leak.antt =====
-- The full refresh of src/project_knowledge_mcp/ingestion_coordinator.py whose body raises an
-- exception that is no GitLab error.
use gitlab_knowledege.Common.{◌≡◌, refl, ◌∙◌, false, none, some}
use gitlab_knowledege.Exec.{Error, returned, raised, final, raise, catch, ◌>>=◌}
use gitlab_knowledege.Models.{full}
use gitlab_knowledege.Coordinator.{JobHandle}
use gitlab_knowledege.Coordinator.SingleFlight.{IsExclusive}
use gitlab_knowledege.Jobs.Rules.{SameGate}
use gitlab_knowledege.Jobs.Slot.Release.{Started, start_job-Started, unused}
use mathlib.Core.Path.{subst}
use gitlab_knowledege.Jobs.{
  Wiring, World, is_gitlab_error, start_job, gitlab_failure, run_job, full_body, full_refresh,
}
use gitlab_knowledege.Jobs.Busy.{full_refresh_refused}
use gitlab_knowledege.Jobs.Slot.{SameGate-full_body}

module _ {E : Type 0} (k : Wiring E) where
  -- The exception goes through all the handlers.
  uncaught :
      (h : JobHandle) (w v : World E) (e : Error)
      → is_gitlab_error e ≡ false
      → full_body k h.snapshot_id w ≡ raised e v
      → run_job k h (full_body k h.snapshot_id) w ≡ raised e v
  unfolding run_job catch ◌>>=◌ gitlab_failure raise
  uncaught h w v e other failed = rw (failed, other) refl

  -- If a full refresh finds the gate idle, starts its job, and its body then raises an exception
  -- other than the two GitLab errors, then the refresh raises that exception, the gate still
  -- names the job, and a full refresh from any world with that gate raises and leaves the gate as
  -- it is.
  pub full_refresh_leaks :
      (w u v : World E) (h : JobHandle) (e : Error)
      → IsExclusive w.coordinator
      → w.coordinator.running ≡ none
      → start_job k full none w ≡ returned h u
      → full_body k h.snapshot_id u ≡ raised e v
      → is_gitlab_error e ≡ false
      → (full_refresh k w ≡ raised e v)
        × (v.coordinator.running ≡ some h)
        × ((later : World E)
            → later.coordinator ≡ v.coordinator
            → (d : Error) × (last : World E) × (full_refresh k later ≡ raised d last)
              × (last.coordinator ≡ v.coordinator))
  unfolding full_refresh ◌>>=◌
  full_refresh_leaks w u v h e valid free started failed other =
      let (on, _) =
        subst (Started w) started
          (start_job-Started k full none w free (unused w.coordinator valid)) in
      let same : v.coordinator ≡ u.coordinator =
        subst (λ o. SameGate u (final o)) failed ((SameGate-full_body k h.snapshot_id).at u) in
      let held : v.coordinator.running ≡ some h = rw same on in
      (
        rw started (uncaught h u v e other failed),
        held,
        λ later there.
            let (d, last, stops, kept) = full_refresh_refused k later h (rw there held) in
            (d, last, stops, kept ∙ there),
      )
