-- ===== src/Jobs/Failure.antt =====
-- The refreshes of src/project_knowledge_mcp/ingestion_coordinator.py that raise.
use mathlib.Core.Path.{subst}
use gitlab_knowledege.Common.{
  ℕ, ◌≡◌, ap, true, false, Option, none, some, [], ◌∷◌, Bool-cases, inl, inr,
}
use gitlab_knowledege.Exec.{
  Error, project_not_in_scope, Outcome, returned, raised, Exec, final, resume, handle, catch, ◌>>=◌,
}
use gitlab_knowledege.Exec.Relates.{
  IsPreorder, Relates, Relates-raise, Relates-bind, Relates-finally,
}
use gitlab_knowledege.Models.{EnumeratedProject, full, single_project}
use gitlab_knowledege.Store.Invariant.{
  IsValid, SameView, SameView-refl, SameView-trans, ReaderSafe-IsPreorder,
}
use gitlab_knowledege.Store.Tables.{KnowledgeStore}
use gitlab_knowledege.Store.Tables.Inversion.{NoWrite}
use gitlab_knowledege.Store.Writer.{commit_snapshot}
use gitlab_knowledege.Store.Writer.Commit.{commit_snapshot-NoWrite}
use gitlab_knowledege.Store.Reader.{get_current_snapshot_id}
use gitlab_knowledege.Store.Reader.Reads.{get_current_snapshot_id-Related}
use gitlab_knowledege.Catalog.Reads.{is_in_scope-Related}
use gitlab_knowledege.Catalog.{populate_in_scope, is_in_scope}
use gitlab_knowledege.Catalog.Populate.{populate_in_scope-ReaderSafe}
use gitlab_knowledege.Coordinator.{JobHandle, complete, abort, end_job, is_active}
use gitlab_knowledege.Jobs.{
  Wiring, World, with_store, on_store, on_gate, on_env, read_clock, abort_now, commit_now,
  analyze_enumerated_projects, start_job, gitlab_failure, run_job, full_body, full_refresh,
  find_project, refresh_found, single_body, single_job, single_refresh_in, single_refresh,
}
use gitlab_knowledege.Jobs.Isolation.{
  Safe, abort_now-Safe, analyze_enumerated_projects-Safe, start_job-Safe, gitlab_failure-Safe,
}
use gitlab_knowledege.Jobs.Rules.{
  InStore-IsPreorder, Relates-on_store, Relates-on_gate, Relates-on_env, Relates-read_clock,
}

module _ {E : Type 0} where
  -- An outcome that raised is safe for readers.
  abbrev pub RaisedSafe : {A : Type 0} → World E → Outcome (World E) A → Type 0
  RaisedSafe w (returned a v) = Unit
  RaisedSafe w (raised e v) = Safe w v

  order : IsPreorder (Safe {E = E})
  order = InStore-IsPreorder ReaderSafe-IsPreorder

  Safe-trans : (u v w : World E) → Safe u v → Safe v w → Safe u w
  Safe-trans u v w f g valid =
      let (valid', view) = f valid in
      let (valid'', view') = g valid' in (valid'', SameView-trans view view')

module _ {E : Type 0} {A : Type 0} where
  RaisedSafe-of_Safe : (w : World E) (o : Outcome (World E) A) → Safe w (final o) → RaisedSafe w o
  RaisedSafe-of_Safe w (returned a v) h = tt
  RaisedSafe-of_Safe w (raised e v) h = h

  RaisedSafe-trans :
      (w v : World E) (o : Outcome (World E) A) → Safe w v → RaisedSafe v o → RaisedSafe w o
  RaisedSafe-trans w v (returned a u) h r = tt
  RaisedSafe-trans w v (raised e u) h r = Safe-trans w v u h r

  abbrev pub Returns : Outcome (World E) A → Type 0
  Returns (returned a v) = Unit
  Returns (raised e v) = ⊥

  RaisedSafe-of_Returns : (w : World E) (o : Outcome (World E) A) → Returns o → RaisedSafe w o
  RaisedSafe-of_Returns w (returned a v) h = tt
  RaisedSafe-of_Returns w (raised e v) h = absurd h

module _ {E : Type 0} {A B : Type 0} where
  resume-RaisedSafe :
      (w : World E) (o : Outcome (World E) A) (f : A → Exec (World E) B)
      → Safe w (final o)
      → ((x : A) (v : World E) → RaisedSafe v (f x v))
      → RaisedSafe w (resume o f)
  resume-RaisedSafe w (returned x v) f h k = RaisedSafe-trans w v (f x v) h (k x v)
  resume-RaisedSafe w (raised e v) f h k = h

  bind-RaisedSafe :
      (m : Exec (World E) A) (f : A → Exec (World E) B)
      → Relates Safe m
      → ((x : A) (v : World E) → RaisedSafe v (f x v))
      → (w : World E) → RaisedSafe w ((m >>= f) w)
  unfolding ◌>>=◌
  bind-RaisedSafe m f km kf w = resume-RaisedSafe w (m w) f (km.at w) kf

module _ {E : Type 0} (k : Wiring E) where
  stored-RaisedSafe :
      (w : World E) (o : Outcome KnowledgeStore (Unit {0}))
      → NoWrite w.store.tables o
      → RaisedSafe w (with_store w o)
  stored-RaisedSafe w (returned a s) h = tt
  stored-RaisedSafe w (raised e s) h = λ valid. rw h (valid, SameView-refl w.store.tables)

  commit_now-RaisedSafe : (s : ℕ) (w : World E) → RaisedSafe w (commit_now k s w)
  unfolding commit_now on_store
  commit_now-RaisedSafe s =
      bind-RaisedSafe (read_clock k) _ (Relates-read_clock ReaderSafe-IsPreorder k) (λ t v.
        stored-RaisedSafe v (commit_snapshot s t v.store) (commit_snapshot-NoWrite s t v.store))

  full_body-RaisedSafe : (s : ℕ) (w : World E) → RaisedSafe w (full_body k s w)
  unfolding full_body
  full_body-RaisedSafe s =
      bind-RaisedSafe (on_env k.enumerate_projects) _ (Relates-on_env ReaderSafe-IsPreorder _)
        (λ ps.
          bind-RaisedSafe (on_store (populate_in_scope s ps)) _
            (Relates-on_store ReaderSafe-IsPreorder _ (populate_in_scope-ReaderSafe s ps))
            (λ _.
              bind-RaisedSafe (analyze_enumerated_projects k s ps) _
                (analyze_enumerated_projects-Safe k s ps) (λ _. commit_now-RaisedSafe s)))

  pub complete-Returns : (h : JobHandle) (w : World E) → Returns (on_gate (complete h) w)
  unfolding on_gate end_job
  complete-Returns h w = elim (Bool-cases (is_active h w.coordinator)) [
    | inl e ↦ rw (e, end_job) tt
    | inr e ↦ rw (e, end_job) tt
  ]

  settled :
      (h : JobHandle) (w : World E) (o : Outcome (World E) (Unit {0}))
      → RaisedSafe w o
      → RaisedSafe w (resume (handle o (gitlab_failure k h)) (λ _. on_gate (complete h)))
  settled h w (returned _ v) r =
      RaisedSafe-of_Returns w (on_gate (complete h) v) (complete-Returns h v)
  settled h w (raised e v) r =
      resume-RaisedSafe w (gitlab_failure k h e v) _
        (Safe-trans w v (final (gitlab_failure k h e v)) r ((gitlab_failure-Safe k h e).at v))
        (λ _ u. RaisedSafe-of_Returns u (on_gate (complete h) u) (complete-Returns h u))

  run_job-RaisedSafe :
      (h : JobHandle) (body : Exec (World E) (Unit {0}))
      → ((w : World E) → RaisedSafe w (body w))
      → (w : World E) → RaisedSafe w (run_job k h body w)
  unfolding run_job catch ◌>>=◌
  run_job-RaisedSafe h body safe w = settled h w (body w) (safe w)

  full_refresh-RaisedSafe : (w : World E) → RaisedSafe w (full_refresh k w)
  unfolding full_refresh
  full_refresh-RaisedSafe =
      bind-RaisedSafe (start_job k full none) _ (start_job-Safe k full none)
        (λ h. run_job-RaisedSafe h (full_body k h.snapshot_id) (full_body-RaisedSafe h.snapshot_id))

  refresh_found-RaisedSafe :
      (p : ℕ) (h : JobHandle) (o : Option EnumeratedProject) (w : World E)
      → RaisedSafe w (refresh_found k p h o w)
  unfolding refresh_found
  refresh_found-RaisedSafe p h none w = RaisedSafe-of_Safe w _ (
      (Relates-bind order _ _
          (Relates-finally order (abort_now k h.snapshot_id) (on_gate (abort h))
            (abort_now-Safe k h.snapshot_id) (Relates-on_gate ReaderSafe-IsPreorder _))
          (λ _. Relates-raise order (project_not_in_scope p))).at
        w)
  refresh_found-RaisedSafe p h (some e) w =
      bind-RaisedSafe (analyze_enumerated_projects k h.snapshot_id (e ∷ [])) _
        (analyze_enumerated_projects-Safe k h.snapshot_id (e ∷ []))
        (λ _. commit_now-RaisedSafe h.snapshot_id) w

  single_body-RaisedSafe :
      (p : ℕ) (h : JobHandle) (w : World E) → RaisedSafe w (single_body k p h w)
  unfolding single_body
  single_body-RaisedSafe p h =
      bind-RaisedSafe (on_env k.enumerate_projects) _ (Relates-on_env ReaderSafe-IsPreorder _)
        (λ ps. refresh_found-RaisedSafe p h (find_project p ps))

  single_job-RaisedSafe : (p c : ℕ) (w : World E) → RaisedSafe w (single_job k p c w)
  unfolding single_job
  single_job-RaisedSafe p c =
      bind-RaisedSafe (start_job k single_project (some c)) _
        (start_job-Safe k single_project (some c))
        (λ h. run_job-RaisedSafe h (single_body k p h) (single_body-RaisedSafe p h))

  raised-SameView :
      (w : World E) (o : Outcome (World E) (Unit {0})) (e : Error) (v : World E)
      → RaisedSafe w o
      → o ≡ raised e v
      → Safe w v
  raised-SameView w (returned _ u) e v r h = cc
  raised-SameView w (raised d u) e v r h = subst (Safe w) (ap final h) r

  -- If a full refresh that starts from well-formed tables raises any exception, in any step, then
  -- the tables stay well formed and readers see the pointer, the snapshot row, the profiles and
  -- the catalog that they saw before.
  pub full_refresh_isolated :
      (w v : World E) (e : Error)
      → IsValid w.store.tables
      → full_refresh k w ≡ raised e v
      → IsValid v.store.tables × SameView w.store.tables v.store.tables
  full_refresh_isolated w v e valid h =
      raised-SameView w (full_refresh k w) e v (full_refresh-RaisedSafe w) h valid

  single_refresh_in-RaisedSafe :
      (p : ℕ) (c : Option ℕ) (w : World E) → RaisedSafe w (single_refresh_in k p c w)
  unfolding single_refresh_in
  single_refresh_in-RaisedSafe p none w =
      RaisedSafe-of_Safe w _ ((Relates-raise order (project_not_in_scope p)).at w)
  single_refresh_in-RaisedSafe p (some c) w =
      bind-RaisedSafe (on_store (is_in_scope p)) _
        (Relates-on_store ReaderSafe-IsPreorder _ (is_in_scope-Related ReaderSafe-IsPreorder p))
        (elim [
          | true ↦ single_job-RaisedSafe p c
          | false ↦
              λ v. RaisedSafe-of_Safe v _ ((Relates-raise order (project_not_in_scope p)).at v)
        ])
        w

  single_refresh-RaisedSafe : (p : ℕ) (w : World E) → RaisedSafe w (single_refresh k p w)
  unfolding single_refresh
  single_refresh-RaisedSafe p =
      bind-RaisedSafe (on_store get_current_snapshot_id) _
        (Relates-on_store ReaderSafe-IsPreorder _
          (get_current_snapshot_id-Related ReaderSafe-IsPreorder))
        (single_refresh_in-RaisedSafe p)

  -- If a refresh of one project that starts from well-formed tables raises any exception, in any
  -- step, then the tables stay well formed and readers see the pointer, the snapshot row, the
  -- profiles and the catalog that they saw before.
  pub single_refresh_isolated :
      (p : ℕ) (w v : World E) (e : Error)
      → IsValid w.store.tables
      → single_refresh k p w ≡ raised e v
      → IsValid v.store.tables × SameView w.store.tables v.store.tables
  single_refresh_isolated p w v e valid h =
      raised-SameView w (single_refresh k p w) e v (single_refresh-RaisedSafe p w) h valid
