-- ===== src/Jobs/Success/Publishes.antt =====
-- The full refresh of src/project_knowledge_mcp/ingestion_coordinator.py that returned.
use mathlib.Core.Path.{subst, subst₂}
use gitlab_knowledege.Common.{
  ℕ, String, ◌≡◌, ◌≢◌, refl, sym, ap, ◌∙◌, Option, none, some, List, [], arith, Bool-cases, inl,
  inr, Option-cases,
}
use gitlab_knowledege.Exec.{
  Error, ingestion_in_progress, Outcome, returned, raised, Exec, final, raise, resume, handle,
  catch, finally, ◌>>=◌,
}
use gitlab_knowledege.Exec.Inversion.{bind_returned, resume-eq-returned}
use gitlab_knowledege.Models.{SnapshotTrigger, EnumeratedProject, full, completed}
use gitlab_knowledege.Store.Invariant.{IsValid, ReaderSafe}
use gitlab_knowledege.Store.Rows.{scan}
use gitlab_knowledege.Store.Tables.{Tables, KnowledgeStore, find_snapshot, status_of}
use gitlab_knowledege.Store.Writer.{member, begin_snapshot}
use gitlab_knowledege.Store.Writer.Opened.{Began}
use gitlab_knowledege.Store.Writer.Begin.{begin_snapshot-Began}
use gitlab_knowledege.Store.Writer.Commit.{Committed-IsValid}
use gitlab_knowledege.Catalog.{populate_in_scope}
use gitlab_knowledege.Catalog.Populate.{
  populate_in_scope-eq-returned, populate_in_scope-ReaderSafe, put_all, scan-populated,
}
use gitlab_knowledege.Coordinator.{JobHandle, Coordinator, try_start, complete, abort}
use gitlab_knowledege.Coordinator.SingleFlight.{try_start_idle, try_start_running}
use gitlab_knowledege.Jobs.{
  Wiring, World, with_gate, is_in_progress_error, is_gitlab_error, on_store, on_gate, on_env,
  read_clock, commit_now, analyze_enumerated_projects, abort_now, rejected, start_job,
  gitlab_failure, run_job, full_body, full_refresh,
}
use gitlab_knowledege.Jobs.Isolation.{Safe, analyze_enumerated_projects-Safe, start_job-Safe}
use gitlab_knowledege.Jobs.Success.{
  Analyzed, on_store-eq-returned, on_env-eq-returned, analyze_enumerated_projects-Analyzed,
  commit_now-Committed,
}

-- `b` shows readers the snapshot `s`, that `a` did not have, with the catalog `rows`.
pub record Publishes (s : ℕ) (rows : List (ℕ × String)) (a b : Tables) : Type 0 where
  pub fresh : find_snapshot s a.snapshots ≡ none
  pub valid : IsValid b
  pub current : b.current_snapshot ≡ some (some s)
  pub done : status_of s b.snapshots ≡ some completed
  pub catalog : scan s b.project_catalog ≡ rows

module _ {E : Type 0} (k : Wiring E) where
  pub then_raise :
      {A B : Type 0} (m : Exec (World E) A) (e : Error) (w v : World E) (b : B)
      → (m >>= λ _. raise e) w ≢ returned b v
  unfolding raise
  then_raise m e w v b h = bind_returned m _ w b v h (λ x w' first rest. absurd (ground arith))

  rejected-raises :
      (s : ℕ) (e : Error) (w v : World E) (h : JobHandle) → rejected k s e w ≢ returned h v
  unfolding rejected raise
  rejected-raises s e w v h r = elim (Bool-cases (is_in_progress_error e)) [
    | inl is ↦ then_raise (abort_now k s) e w v h (rw is at r)
    | inr other ↦ let r' = rw other at r in absurd (ground arith)
  ]

  gitlab_failure-raises :
      (j : JobHandle) (e : Error) (w v : World E) → gitlab_failure k j e w ≢ returned tt v
  unfolding gitlab_failure raise
  gitlab_failure-raises j e w v r = elim (Bool-cases (is_gitlab_error e)) [
    | inl is ↦
        then_raise (finally (abort_now k j.snapshot_id) (on_gate (abort j))) e w v tt (rw is at r)
    | inr other ↦ let r' = rw other at r in absurd (ground arith)
  ]

  -- A handle that came back is that of the snapshot opened before it.
  gate-eq-returned :
      (w v : World E) (trigger : SnapshotTrigger) (s u : ℕ) (h : JobHandle)
      → catch (on_gate (try_start trigger s u)) (rejected k s) w ≡ returned h v
      → (h.snapshot_id ≡ s) × (v.store ≡ w.store)
  unfolding catch on_gate
  gate-eq-returned w v trigger s u h e = elim (Option-cases w.coordinator.running) [
    | inl free ↦
        let e' = rw (try_start_idle w.coordinator trigger s u free) at e in
        (ground arith, ground arith)
    | inr (r, busy) ↦
        let e' = rw (try_start_running w.coordinator trigger s u busy) at e in
        absurd (
          rejected-raises s ingestion_in_progress (record w { coordinator = w.coordinator }) v h e')
  ]

  pub opened-Began :
      (trigger : SnapshotTrigger) (parent : Option ℕ) (w u : World E) (h : JobHandle)
      → IsValid w.store.tables
      → start_job k trigger parent w ≡ returned h u
      → (now : ℕ) × (t : SnapshotTrigger) × Began t parent now h.snapshot_id w.store.tables
          u.store.tables
  unfolding start_job read_clock
  opened-Began trigger parent w u h valid e =
      bind_returned (read_clock k) _ w h u e (λ t a read rest.
        let same : a.store ≡ w.store = ground arith in
        bind_returned (on_store (begin_snapshot (member trigger) parent t)) _ a h u rest
          (λ s b begun rest'. bind_returned (read_clock k) _ b h u rest' (λ now c read' last.
            let (mine, kept) = gate-eq-returned c u trigger s now h last in
            let kept' : u.store ≡ b.store = kept ∙ ground arith in
            let (t', began) =
              begin_snapshot-Began (member trigger) parent t s a.store b.store (rw same valid)
                (on_store-eq-returned (begin_snapshot (member trigger) parent t) a b s begun) in
            (
              t,
              t',
              subst (λ n. Began t' parent t n w.store.tables u.store.tables) (sym mine)
                  (subst2 t' t s (ap (λ x. x.tables) same) (ap (λ x. x.tables) (sym kept')) began),
            ))))
    where
      subst2 :
          (t' : SnapshotTrigger) (t s : ℕ) {x y z z' : Tables}
          → x ≡ y
          → z ≡ z'
          → Began t' parent t s x z
          → Began t' parent t s y z'
      subst2 t' t s p q b = subst₂ (λ i j. Began t' parent t s i j) p q b

  -- The end of a body: the analysis, and the commit.
  pub analyzed_committed :
      (s : ℕ) (ps : List EnumeratedProject) (w u v : World E)
      → IsValid w.store.tables
      → analyze_enumerated_projects k s ps w ≡ returned tt u
      → commit_now k s u ≡ returned tt v
      → IsValid v.store.tables
        × (v.store.tables.current_snapshot ≡ some (some s))
        × (v.store.tables.project_catalog ≡ w.store.tables.project_catalog)
  analyzed_committed s ps w u v valid analyzed committed =
      let (valid', _) =
        subst (λ o. Safe w (final o)) analyzed ((analyze_enumerated_projects-Safe k s ps).at w)
          valid in
      let same : Analyzed w.store.tables u.store.tables =
        subst (λ o. Analyzed w.store.tables (final {S = World E} o).store.tables) analyzed
          ((analyze_enumerated_projects-Analyzed k s ps).at w) in
      let (now, c) = commit_now-Committed k s u v valid' committed in
      (
        Committed-IsValid s now u.store.tables v.store.tables valid' c,
        ap (λ t. t.current_snapshot) c.done,
        ap (λ t. t.project_catalog) c.done ∙ same.catalog,
      )

  -- From the rows of the enumeration to the commit.
  published :
      (s : ℕ) (ps : List EnumeratedProject) (t : SnapshotTrigger) (now : ℕ) (a : Tables)
      (w₁ w₂ w₃ v : World E)
      → IsValid w₁.store.tables
      → Began t none now s a w₁.store.tables
      → populate_in_scope s ps w₁.store ≡ returned tt w₂.store
      → analyze_enumerated_projects k s ps w₂ ≡ returned tt w₃
      → commit_now k s w₃ ≡ returned tt v
      → Publishes s (put_all ps []) a v.store.tables
  published s ps t now a w₁ w₂ w₃ v valid began filled analyzed committed =
      let (valid₂, _) =
        subst (λ o. ReaderSafe w₁.store.tables (final {S = KnowledgeStore} o).tables) filled
          ((populate_in_scope-ReaderSafe s ps).at w₁.store) valid in
      let (valid', current, catalog) = analyzed_committed s ps w₂ w₃ v valid₂ analyzed committed in
      let rows = populate_in_scope-eq-returned s ps w₁.store w₂.store filled in
      record {
        fresh = began.fresh;
        valid = valid';
        current = current;
        done = valid'.published s current;
        catalog =
            ap (scan s) (catalog ∙ ap (λ x. x.project_catalog) rows)
            ∙ scan-populated s ps w₁.store.tables.project_catalog
            ∙ ap (put_all ps) (began.no_parent refl).1;
      }

  -- The steps between the start and the commit.
  full_body-Publishes :
      (s : ℕ) (w v : World E) (t : SnapshotTrigger) (now : ℕ) (a : Tables)
      → IsValid w.store.tables
      → Began t none now s a w.store.tables
      → full_body k s w ≡ returned tt v
      → (ps : List EnumeratedProject) × (x y : E) × (k.enumerate_projects x ≡ returned ps y)
        × Publishes s (put_all ps []) a v.store.tables
  unfolding full_body
  full_body-Publishes s w v t now a valid began h =
      bind_returned (on_env k.enumerate_projects) _ w tt v h (λ ps w₁ listed h₁.
        let (answer, kept) = on_env-eq-returned k.enumerate_projects w w₁ ps listed in
        bind_returned (on_store (populate_in_scope s ps)) _ w₁ tt v h₁ (λ _ w₂ filled h₂.
          bind_returned (analyze_enumerated_projects k s ps) _ w₂ tt v h₂ (λ _ w₃ analyzed h₃. (
            ps,
            w.env,
            w₁.env,
            answer,
            published s ps t now a w₁ w₂ w₃ v (rw kept valid) (rw kept began)
                (on_store-eq-returned (populate_in_scope s ps) w₁ w₂ tt filled) analyzed h₃,
          ))))

  with_gate-store :
      (w v : World E) (o : Outcome Coordinator (Unit {0}))
      → with_gate w o ≡ returned tt v
      → v.store ≡ w.store
  with_gate-store w v (returned _ c) e = ground arith
  with_gate-store w v (raised d c) e = absurd (ground arith)

  job_over :
      (h : JobHandle) (o : Outcome (World E) (Unit {0})) (v : World E)
      → resume (handle o (gitlab_failure k h)) (λ _. on_gate (complete h)) ≡ returned tt v
      → (u : World E) × (o ≡ returned tt u) × (v.store ≡ u.store)
  unfolding on_gate
  job_over h (returned _ u) v e = (u, refl, with_gate-store u v (complete h u.coordinator) e)
  job_over h (raised d u) v e =
      let (_, u', first, _) = resume-eq-returned (gitlab_failure k h d u) _ tt v e in
      absurd (gitlab_failure-raises h d u u' first)

  -- A job that returned: its body did, and completing it leaves the store alone.
  pub run_job-eq-returned :
      (h : JobHandle) (body : Exec (World E) (Unit {0})) (w v : World E)
      → run_job k h body w ≡ returned tt v
      → (u : World E) × (body w ≡ returned tt u) × (v.store ≡ u.store)
  unfolding run_job catch ◌>>=◌
  run_job-eq-returned h body w v e = job_over h (body w) v e

  -- If a full refresh that starts from well-formed tables returns, then the enumeration answered
  -- some projects, and readers see a completed snapshot that was not there before and whose
  -- catalog is those projects put one after the other into an empty list, a later one with the
  -- same id over an earlier one. The tables stay well formed.
  pub full_refresh_publishes :
      (w v : World E)
      → IsValid w.store.tables
      → full_refresh k w ≡ returned tt v
      → (ps : List EnumeratedProject) × (x y : E) × (k.enumerate_projects x ≡ returned ps y)
        × (s : ℕ) × Publishes s (put_all ps []) w.store.tables v.store.tables
  unfolding full_refresh
  full_refresh_publishes w v valid e =
      bind_returned (start_job k full none) _ w tt v e (λ h u started rest.
        let (now, t, began) = opened-Began full none w u h valid started in
        let (last, done, same) = run_job-eq-returned h (full_body k h.snapshot_id) u v rest in
        let (valid', _) =
          subst (λ o. Safe w (final o)) started ((start_job-Safe k full none).at w) valid in
        let (ps, x, y, answer, p) =
          full_body-Publishes h.snapshot_id u last t now w.store.tables valid' began done in
        (
          ps,
          x,
          y,
          answer,
          h.snapshot_id,
          subst (λ z. Publishes h.snapshot_id (put_all ps []) w.store.tables z.tables) (sym same) p,
        ))
