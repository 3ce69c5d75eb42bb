-- ===== src/Jobs/Success/Single.antt =====
-- The refresh of one project of src/project_knowledge_mcp/ingestion_coordinator.py that returned.
use mathlib.Core.Path.{subst}
use gitlab_knowledege.Common.{
  ℕ, ◌≡◌, refl, sym, ap, ◌∙◌, true, false, Option, none, some, [], ◌∷◌, arith,
}
use gitlab_knowledege.Exec.{
  project_not_in_scope, Outcome, returned, raised, Exec, final, pure, raise, handle, catch, finally,
}
use gitlab_knowledege.Exec.Inversion.{bind_returned}
use gitlab_knowledege.Exec.Relates.{IsPreorder}
use gitlab_knowledege.Models.{SnapshotTrigger, EnumeratedProject, single_project}
use gitlab_knowledege.Store.Invariant.{IsValid}
use gitlab_knowledege.Store.Rows.{scan}
use gitlab_knowledege.Store.Tables.{Tables, KnowledgeStore, execute}
use gitlab_knowledege.Store.Tables.Inversion.{execute-eq-returned}
use gitlab_knowledege.Store.Reader.{guarded, read_guard, pointer_of, get_current_snapshot_id}
use gitlab_knowledege.Store.Reader.Reads.{get_current_snapshot_id-Related}
use gitlab_knowledege.Store.Writer.Opened.{Began}
use gitlab_knowledege.Catalog.{is_in_scope}
use gitlab_knowledege.Catalog.Reads.{is_in_scope-Related}
use gitlab_knowledege.Coordinator.{JobHandle, abort}
use gitlab_knowledege.Jobs.{
  Wiring, World, on_store, on_gate, on_env, abort_now, find_project, analyze_enumerated_projects,
  start_job, refresh_found, single_body, single_job, single_refresh_in, single_refresh,
}
use gitlab_knowledege.Jobs.Isolation.{Safe, start_job-Safe}
use gitlab_knowledege.Jobs.Rules.{Relates-on_store}
use gitlab_knowledege.Jobs.Success.{on_store-eq-returned, on_env-eq-returned}
use gitlab_knowledege.Jobs.Success.Publishes.{
  Publishes, then_raise, opened-Began, analyzed_committed, run_job-eq-returned,
}

abbrev Same : Tables → Tables → Type 0
Same a b = b ≡ a

Same-IsPreorder : IsPreorder Same
Same-IsPreorder = record { reflexive = λ a. refl; transitive = λ h k. k ∙ h }

read_guard-eq-returned :
    {A : Type 0} (m : Exec KnowledgeStore A) (a b : KnowledgeStore) (x : A)
    → read_guard m a ≡ returned x b
    → m a ≡ returned x b
unfolding read_guard catch raise
read_guard-eq-returned {A} m a b x h = unhandled (m a) h
  where
    unhandled :
        (o : Outcome KnowledgeStore A)
        → handle o (λ e. raise (guarded e)) ≡ returned x b
        → o ≡ returned x b
    unhandled (returned y c) h = h
    unhandled (raised e c) h = absurd (ground arith)

pointer_of-eq-some :
    (o : Option (Option ℕ)) (a b : KnowledgeStore) (c : ℕ)
    → pointer_of o a ≡ returned (some c) b
    → o ≡ some (some c)
unfolding pointer_of pure raise
pointer_of-eq-some none a b c h = absurd (ground arith)
pointer_of-eq-some (some p) a b c h = ground arith

-- The pointer that a read has found.
pointer-eq-returned :
    (a b : KnowledgeStore) (c : ℕ)
    → get_current_snapshot_id a ≡ returned (some c) b
    → a.tables.current_snapshot ≡ some (some c)
unfolding get_current_snapshot_id
pointer-eq-returned a b c h =
    bind_returned (read_guard (execute (λ t. returned t.current_snapshot t))) _ a (some c) b h
      (λ found d read rest.
        let row =
          execute-eq-returned (λ t. returned t.current_snapshot t) a
            (read_guard-eq-returned (execute (λ t. returned t.current_snapshot t)) a d found
              read) in
        let e : found ≡ a.tables.current_snapshot = ground arith in
        let e' = pointer_of-eq-some found d b c rest in sym e ∙ e')

module _ {E : Type 0} (k : Wiring E) where
  pub single_body-Publishes :
      (p c : ℕ) (h : JobHandle) (w v : World E) (t : SnapshotTrigger) (now : ℕ) (a : Tables)
      → IsValid w.store.tables
      → Began t (some c) now h.snapshot_id a w.store.tables
      → single_body k p h w ≡ returned tt v
      → Publishes h.snapshot_id (scan c a.project_catalog) a v.store.tables
  unfolding single_body refresh_found
  single_body-Publishes p c h w v t now a valid began e =
      bind_returned (on_env k.enumerate_projects) _ w tt v e (λ ps u listed rest.
        let (_, kept) = on_env-eq-returned k.enumerate_projects w u ps listed in
        found_published (find_project p ps) u (rw kept valid) (rw kept began) rest)
    where
      found_published :
          (found : Option EnumeratedProject) (u : World E)
          → IsValid u.store.tables
          → Began t (some c) now h.snapshot_id a u.store.tables
          → refresh_found k p h found u ≡ returned tt v
          → Publishes h.snapshot_id (scan c a.project_catalog) a v.store.tables
      found_published none u valid began e = absurd (
          then_raise k (finally (abort_now k h.snapshot_id) (on_gate (abort h)))
            (project_not_in_scope p) u v tt e)
      found_published (some project) u valid began e =
          bind_returned (analyze_enumerated_projects k h.snapshot_id (project ∷ [])) _ u tt v e
            (λ _ x analyzed committed.
              let (valid', current, catalog) =
                analyzed_committed k h.snapshot_id (project ∷ []) u x v valid analyzed committed in
              record {
                fresh = began.fresh;
                valid = valid';
                current = current;
                done = valid'.published h.snapshot_id current;
                catalog = ap (scan h.snapshot_id) catalog ∙ (began.copied c refl).1;
              })

  -- What the body of a refresh that returned makes true holds after the refresh.
  module _ (p : ℕ) (P : ℕ → ℕ → Tables → Tables → Type 0)
      (body : (c : ℕ) (h : JobHandle) (w v : World E) (t : SnapshotTrigger) (now : ℕ) (a : Tables)
        → IsValid w.store.tables
        → Began t (some c) now h.snapshot_id a w.store.tables
        → single_body k p h w ≡ returned tt v
        → P c h.snapshot_id a v.store.tables) where
    after_single_job :
        (c : ℕ) (w v : World E)
        → IsValid w.store.tables
        → single_job k p c w ≡ returned tt v
        → (s : ℕ) × P c s w.store.tables v.store.tables
    unfolding single_job
    after_single_job c w v valid e =
        bind_returned (start_job k single_project (some c)) _ w tt v e (λ h u started rest.
          let (now, t, began) = opened-Began k single_project (some c) w u h valid started in
          let (last, done, same) = run_job-eq-returned k h (single_body k p h) u v rest in
          let (valid', _) =
            subst (λ o. Safe w (final o)) started ((start_job-Safe k single_project (some c)).at w)
              valid in
          (
            h.snapshot_id,
            subst (λ z. P c h.snapshot_id w.store.tables z.tables) (sym same)
                (body c h u last t now w.store.tables valid' began done),
          ))

    after_single_refresh_in :
        (o : Option ℕ) (w v : World E)
        → IsValid w.store.tables
        → single_refresh_in k p o w ≡ returned tt v
        → (c : ℕ) × (o ≡ some c) × (s : ℕ) × P c s w.store.tables v.store.tables
    unfolding single_refresh_in raise
    after_single_refresh_in none w v valid e = absurd (ground arith)
    after_single_refresh_in (some c) w v valid e =
        bind_returned (on_store (is_in_scope p)) _ w tt v e (elim [
          | true ↦ λ u asked rest.
              let same : u.store.tables ≡ w.store.tables =
                subst (λ o. Same w.store.tables (final {S = World E} o).store.tables) asked
                  ((Relates-on_store Same-IsPreorder _ (is_in_scope-Related Same-IsPreorder p)).at
                    w) in
              let (s, done) = after_single_job c u v (rw same valid) rest in
              (c, refl, s, subst (λ t. P c s t v.store.tables) same done)
          | false ↦ λ u asked rest. absurd (ground arith)
        ])

    pub after_single_refresh :
        (w v : World E)
        → IsValid w.store.tables
        → single_refresh k p w ≡ returned tt v
        → (c : ℕ) × (w.store.tables.current_snapshot ≡ some (some c))
          × (s : ℕ) × P c s w.store.tables v.store.tables
    unfolding single_refresh
    after_single_refresh w v valid e =
        bind_returned (on_store get_current_snapshot_id) _ w tt v e (λ o u asked rest.
          let same : u.store.tables ≡ w.store.tables =
            subst (λ z. Same w.store.tables (final {S = World E} z).store.tables) asked
              ((Relates-on_store Same-IsPreorder _
                  (get_current_snapshot_id-Related Same-IsPreorder)).at
                w) in
          let (c, is, s, done) = after_single_refresh_in o u v (rw same valid) rest in
          let read : get_current_snapshot_id w.store ≡ returned (some c) u.store =
            rw (← is) (on_store-eq-returned get_current_snapshot_id w u o asked) in
          (
            c,
            pointer-eq-returned w.store u.store c read,
            s,
            subst (λ t. P c s t v.store.tables) same done,
          ))

  -- If a refresh of one project that starts from well-formed tables returns, then the pointer
  -- named a snapshot before, and readers see a completed snapshot that was not there before and
  -- whose catalog has the rows of the one that the pointer named. The tables stay well formed.
  pub single_refresh_publishes :
      (p : ℕ) (w v : World E)
      → IsValid w.store.tables
      → single_refresh k p w ≡ returned tt v
      → (c : ℕ) × (w.store.tables.current_snapshot ≡ some (some c))
        × (s : ℕ) × Publishes s
            (scan c w.store.tables.project_catalog)
            w.store.tables
            v.store.tables
  single_refresh_publishes p =
      after_single_refresh p (λ c s a b. Publishes s (scan c a.project_catalog) a b)
        (λ c. single_body-Publishes p c)
