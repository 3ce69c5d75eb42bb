-- ===== src/Jobs/Busy.antt =====
-- The refreshes of src/project_knowledge_mcp/ingestion_coordinator.py that are asked for while
-- a job is running.
use gitlab_knowledege.Common.{ℕ, ◌≡◌, refl, ◌∙◌, true, false, Option, none, some}
use gitlab_knowledege.Exec.{
  Error, ingestion_in_progress, Outcome, returned, raised, Exec, final, raise, resume, catch, ◌>>=◌,
}
use gitlab_knowledege.Exec.Relates.{Relates, Relates-bind}
use gitlab_knowledege.Models.{SnapshotTrigger, full, single_project}
use gitlab_knowledege.Store.Writer.{member, begin_snapshot}
use gitlab_knowledege.Store.Reader.{get_current_snapshot_id}
use gitlab_knowledege.Catalog.{is_in_scope}
use gitlab_knowledege.Coordinator.{JobHandle}
use gitlab_knowledege.Coordinator.SingleFlight.{try_start_running}
use gitlab_knowledege.Jobs.{
  Wiring, World, is_in_progress_error, on_store, on_gate, read_clock, abort_now, rejected,
  start_job, full_refresh, single_job, single_refresh_in, single_refresh,
}
use gitlab_knowledege.Jobs.Rules.{
  SameGate, SameGate-IsPreorder, SameGate-on_store, SameGate-read_clock,
}

-- The call raised, and the gate is as it was.
abbrev pub Refused : {E A : Type 0} → World E → Outcome (World E) A → Type 0
Refused w (returned a v) = ⊥
Refused w (raised e v) = v.coordinator ≡ w.coordinator

module _ {E : Type 0} {A : Type 0} where
  Refused-moved :
      (w v : World E) (o : Outcome (World E) A)
      → v.coordinator ≡ w.coordinator
      → Refused v o
      → Refused w o
  Refused-moved w v (returned a u) h r = r
  Refused-moved w v (raised e u) h r = r ∙ h

module _ {E : Type 0} {A B : Type 0} where
  resume-Refused :
      (w : World E) (o : Outcome (World E) A) (f : A → Exec (World E) B)
      → SameGate w (final o)
      → ((x : A) (v : World E) → v.coordinator ≡ w.coordinator → Refused w (f x v))
      → Refused w (resume o f)
  resume-Refused w (returned x v) f h k = k x v h
  resume-Refused w (raised e v) f h k = h

  -- A first step that leaves the gate alone.
  then-Refused :
      (m : Exec (World E) A) (f : A → Exec (World E) B) (w : World E)
      → Relates SameGate m
      → ((x : A) (v : World E) → v.coordinator ≡ w.coordinator → Refused w (f x v))
      → Refused w ((m >>= f) w)
  unfolding ◌>>=◌
  then-Refused m f w km kf = resume-Refused w (m w) f (km.at w) kf

  Refused-resume :
      (w : World E) (o : Outcome (World E) A) (f : A → Exec (World E) B)
      → Refused w o
      → Refused w (resume o f)
  Refused-resume w (returned x v) f h = absurd h
  Refused-resume w (raised e v) f h = h

  -- Nothing comes after a refusal.
  Refused-then :
      (m : Exec (World E) A) (f : A → Exec (World E) B) (w : World E)
      → Refused w (m w)
      → Refused w ((m >>= f) w)
  unfolding ◌>>=◌
  Refused-then m f w h = Refused-resume w (m w) f h

module _ {E : Type 0} (k : Wiring E) where
  pub SameGate-abort_now : (s : ℕ) → Relates SameGate (abort_now k s)
  unfolding abort_now
  SameGate-abort_now s =
      Relates-bind SameGate-IsPreorder (read_clock k) _ (SameGate-read_clock k)
        (λ t. SameGate-on_store _)

  rejected-Refused :
      (s : ℕ) (w v : World E)
      → v.coordinator ≡ w.coordinator
      → Refused w (rejected k s ingestion_in_progress v)
  unfolding rejected is_in_progress_error raise
  rejected-Refused s w v same = Refused-moved w v _ same (
      then-Refused (abort_now k s) (λ _. raise ingestion_in_progress) v (SameGate-abort_now s)
        (λ _ u h. raised_here v u h))
    where
      raised_here :
          (v u : World E)
          → u.coordinator ≡ v.coordinator
          → Refused {A = JobHandle} v (raise ingestion_in_progress u)
      raised_here v u h = h

  module _ {running : JobHandle} where
    start_job-Refused :
        (trigger : SnapshotTrigger) (parent : Option ℕ) (w : World E)
        → w.coordinator.running ≡ some running
        → Refused w (start_job k trigger parent w)
    unfolding start_job on_gate catch
    start_job-Refused trigger parent w busy =
        then-Refused (read_clock k) _ w (SameGate-read_clock k) (λ t a ha. Refused-moved w a _ ha (
          then-Refused (on_store (begin_snapshot (member trigger) parent t)) _ a
            (SameGate-on_store _)
            (λ s b hb. Refused-moved a b _ hb (
              then-Refused (read_clock k) _ b (SameGate-read_clock k) (λ u c hc.
                let on : c.coordinator.running ≡ some running = rw (hc ∙ hb ∙ ha) busy in
                rw (try_start_running c.coordinator trigger s u on) (rejected-Refused s b c hc))))))

  raised_of_Refused :
      {A : Type 0} (w : World E) (o : Outcome (World E) A)
      → Refused w o
      → (e : Error) × (v : World E) × (o ≡ raised e v) × (v.coordinator ≡ w.coordinator)
  raised_of_Refused w (returned a v) h = absurd h
  raised_of_Refused w (raised e v) h = (e, v, refl, h)

  -- While a job is running, a full refresh raises, and leaves the gate as it is.
  pub full_refresh_refused :
      (w : World E) (running : JobHandle)
      → w.coordinator.running ≡ some running
      → (e : Error) × (v : World E) × (full_refresh k w ≡ raised e v)
        × (v.coordinator ≡ w.coordinator)
  unfolding full_refresh
  full_refresh_refused w running busy =
      raised_of_Refused w (full_refresh k w)
        (Refused-then (start_job k full none) _ w (start_job-Refused full none w busy))

  single_refresh_in-Refused :
      (p : ℕ) (c : Option ℕ) (w : World E) {running : JobHandle}
      → w.coordinator.running ≡ some running
      → Refused w (single_refresh_in k p c w)
  unfolding single_refresh_in single_job raise
  single_refresh_in-Refused p none w busy = refl
  single_refresh_in-Refused p (some c) w {running} busy =
      then-Refused (on_store (is_in_scope p)) _ w (SameGate-on_store _) (elim [
        | true ↦ λ v same.
            let on : v.coordinator.running ≡ some running = rw same busy in
            Refused-moved w v _ same (
              Refused-then (start_job k single_project (some c)) _ v
                (start_job-Refused single_project (some c) v on))
        | false ↦ λ v same. same
      ])

  -- While a job is running, a refresh of one project raises, and leaves the gate as it is.
  pub single_refresh_refused :
      (p : ℕ) (w : World E) (running : JobHandle)
      → w.coordinator.running ≡ some running
      → (e : Error) × (v : World E) × (single_refresh k p w ≡ raised e v)
        × (v.coordinator ≡ w.coordinator)
  unfolding single_refresh
  single_refresh_refused p w running busy = raised_of_Refused w (single_refresh k p w) (
      then-Refused (on_store get_current_snapshot_id) _ w (SameGate-on_store _) (λ c v same.
        let on : v.coordinator.running ≡ some running = rw same busy in
        Refused-moved w v _ same (single_refresh_in-Refused p c v on)))
