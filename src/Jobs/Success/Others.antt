-- ===== src/Jobs/Success/Others.antt =====
-- The refresh of one project of src/project_knowledge_mcp/ingestion_coordinator.py that returned,
-- and the profiles of the other projects.
use mathlib.Core.Path.{subst}
use gitlab_knowledege.Common.{
  ℕ, String, ◌≡◌, ◌≢◌, refl, ap, ◌∙◌, Option, none, some, List, [], ◌∷◌, arith, ◌==◌, ==_of_ne,
  ==_iff, Bool-cases, inl, inr,
}
use gitlab_knowledege.Exec.{
  value_error, project_not_in_scope, returned, Exec, final, pure, finally, ◌>>◌,
}
use gitlab_knowledege.Exec.Inversion.{bind_returned}
use gitlab_knowledege.Exec.Relates.{IsPreorder, Relates, Relates-raise, Relates-if}
use gitlab_knowledege.Models.{
  SnapshotTrigger, EnumeratedProject, RepositoryContents, ProjectProfile,
}
use gitlab_knowledege.Store.Invariant.{IsValid}
use gitlab_knowledege.Store.Rows.{scan}
use gitlab_knowledege.Store.Rows.Laws.{get, get-put, scan-upsert_self}
use gitlab_knowledege.Store.Tables.{Tables, KnowledgeStore, execute, require_in_progress}
use gitlab_knowledege.Store.Tables.Rules.{
  OnTables, OnTables-IsPreorder, execute-Related, Relates-require,
}
use gitlab_knowledege.Store.Writer.{
  Codec, is_empty, upsert_profile, write_profile, insert_skip, record_skip,
}
use gitlab_knowledege.Store.Writer.Opened.{Began}
use gitlab_knowledege.Coordinator.{JobHandle, abort}
use gitlab_knowledege.Jobs.{
  Wiring, World, on_store, on_gate, on_env, find_project, abort_now, analyze_at,
  analyze_enumerated_projects, refresh_found, single_body, single_refresh,
}
use gitlab_knowledege.Jobs.Isolation.{Safe, analyze_enumerated_projects-Safe}
use gitlab_knowledege.Jobs.Success.{on_store-eq-returned, on_env-eq-returned, commit_now-Committed}
use gitlab_knowledege.Jobs.Success.Publishes.{then_raise}
use gitlab_knowledege.Jobs.Success.Single.{single_body-Publishes, after_single_refresh}

-- In the snapshot, the rows of all projects but `p` are the same.
abbrev KeepsOthers : ℕ → ℕ → Tables → Tables → Type 0
KeepsOthers s p a b =
    (q : ℕ) → p ≢ q → get q (scan s b.project_profiles) ≡ get q (scan s a.project_profiles)

module _ (s p : ℕ) where
  KeepsOthers-IsPreorder : IsPreorder (KeepsOthers s p)
  KeepsOthers-IsPreorder = record {
    reflexive = λ a q ne. refl;
    transitive = λ h k q ne. k q ne ∙ h q ne;
  }

  require_execute-KeepsOthers :
      (m : Exec Tables (Unit {0}))
      → Relates (KeepsOthers s p) m
      → Relates (OnTables (KeepsOthers s p)) (require_in_progress s >> execute m)
  require_execute-KeepsOthers m h =
      Relates-require KeepsOthers-IsPreorder s (execute m)
        (λ b _. execute-Related KeepsOthers-IsPreorder m b (h.at b.tables))

  write_profile-KeepsOthers :
      (codec : Codec) (profile : ProjectProfile) (at : ℕ) (sha : String)
      → profile.gitlab_project_id ≡ p
      → Relates (OnTables (KeepsOthers s p)) (write_profile codec s profile at sha)
  unfolding write_profile upsert_profile
  write_profile-KeepsOthers codec profile at sha same =
      Relates-if (OnTables-IsPreorder KeepsOthers-IsPreorder) (is_empty sha) _ _
        (Relates-raise (OnTables-IsPreorder KeepsOthers-IsPreorder) value_error)
        (require_execute-KeepsOthers (upsert_profile codec s profile at sha) (record {
          at = λ t q ne.
              rw
                (
                  scan-upsert_self s profile.gitlab_project_id _ t.project_profiles,
                  get-put profile.gitlab_project_id q _ (scan s t.project_profiles),
                  same,
                  ==_of_ne p q ne,
                )
                refl;
        }))

  record_skip-KeepsOthers :
      (q : ℕ) (reason : String) (detail : Option String)
      → Relates (OnTables (KeepsOthers s p)) (record_skip s q reason detail)
  unfolding record_skip insert_skip
  record_skip-KeepsOthers q reason detail =
      Relates-if (OnTables-IsPreorder KeepsOthers-IsPreorder) (is_empty reason) _ _
        (Relates-raise (OnTables-IsPreorder KeepsOthers-IsPreorder) value_error)
        (require_execute-KeepsOthers (insert_skip s q reason detail)
          (record { at = λ t q' ne. refl }))

find_project-eq-some :
    (p : ℕ) (ps : List EnumeratedProject) {e : EnumeratedProject}
    → find_project p ps ≡ some e
    → e.gitlab_project_id ≡ p
unfolding find_project
find_project-eq-some p [] h = cc
find_project-eq-some p (x ∷ xs) {e} h = elim (Bool-cases (x.gitlab_project_id == p)) [
  | inl is ↦ let same : x ≡ e = ground arith in rw (← same) ((==_iff x.gitlab_project_id p).0 is)
  | inr other ↦
      let later : find_project p xs ≡ some e = ground arith in find_project-eq-some p xs later
]

-- The analyzer answers profiles of the project that it was asked for.
abbrev pub IsHonest : {E : Type 0} → Wiring E → Type 0
IsHonest {E} k =
    (p : ℕ) (path branch sha : String) (description : Option String) (contents : RepositoryContents)
    (x y : E) (profile : ProjectProfile)
    → k.analyze p path branch sha description contents x ≡ returned profile y
    → profile.gitlab_project_id ≡ p

module _ {E : Type 0} (k : Wiring E) (honest : IsHonest k) where
  on_store-KeepsOthers :
      (s p : ℕ) (m : Exec KnowledgeStore (Unit {0})) (w v : World E)
      → Relates (OnTables (KeepsOthers s p)) m
      → on_store m w ≡ returned tt v
      → KeepsOthers s p w.store.tables v.store.tables
  on_store-KeepsOthers s p m w v h e =
      subst (λ o. KeepsOthers s p w.store.tables (final {S = KnowledgeStore} o).tables)
        (on_store-eq-returned m w v tt e) (h.at w.store)

  analyze_at-KeepsOthers :
      (s : ℕ) (x : EnumeratedProject) (sha : Option String) (w v : World E)
      → analyze_at k s x sha w ≡ returned tt v
      → KeepsOthers s x.gitlab_project_id w.store.tables v.store.tables
  unfolding analyze_at
  analyze_at-KeepsOthers s x none w v e =
      on_store-KeepsOthers s x.gitlab_project_id _ w v
        (record_skip-KeepsOthers s x.gitlab_project_id x.gitlab_project_id _ _) e
  analyze_at-KeepsOthers s x (some sha) w v e =
      bind_returned (on_env (k.fetch_repository_contents x.gitlab_project_id sha)) _ w tt v e
        (λ contents u fetched rest.
          let (_, kept) =
            on_env-eq-returned (k.fetch_repository_contents x.gitlab_project_id sha) w u contents
              fetched in
          bind_returned
            (on_env (
              k.analyze x.gitlab_project_id x.full_path x.analysis_branch_name sha
                x.repository_description contents))
            _ u tt v rest
            (λ profile u' analyzed last.
              let (answer, kept') =
                on_env-eq-returned
                  (k.analyze x.gitlab_project_id x.full_path x.analysis_branch_name sha
                    x.repository_description contents)
                  u u' profile analyzed in
              let mine = honest x.gitlab_project_id _ _ _ _ _ u.env u'.env profile answer in
              subst (λ z. KeepsOthers s x.gitlab_project_id z.tables v.store.tables) (kept' ∙ kept)
                (on_store-KeepsOthers s x.gitlab_project_id _ u' v
                  (write_profile-KeepsOthers s x.gitlab_project_id k.codec profile
                    profile.produced_at sha mine)
                  last)))

  analyzed_alone :
      (s : ℕ) (x : EnumeratedProject) (w v : World E)
      → analyze_enumerated_projects k s (x ∷ []) w ≡ returned tt v
      → KeepsOthers s x.gitlab_project_id w.store.tables v.store.tables
  unfolding analyze_enumerated_projects pure
  analyzed_alone s x w v e =
      bind_returned (analyze_at k s x x.analysis_branch_commit_sha) _ w tt v e (λ _ u first rest.
        let same : u.store ≡ v.store = ground arith in
        subst (λ z. KeepsOthers s x.gitlab_project_id w.store.tables z.tables) same
          (analyze_at-KeepsOthers s x x.analysis_branch_commit_sha w u first))

  -- From the rows of the parent to the commit.
  found-KeepsOthers :
      (p c : ℕ) (h : JobHandle) (x : EnumeratedProject) (u v : World E) (t : SnapshotTrigger)
      (now : ℕ) (a : Tables)
      → x.gitlab_project_id ≡ p
      → IsValid u.store.tables
      → Began t (some c) now h.snapshot_id a u.store.tables
      → refresh_found k p h (some x) u ≡ returned tt v
      → (q : ℕ) → p ≢ q
      → get q (scan h.snapshot_id v.store.tables.project_profiles)
        ≡ get q (scan c a.project_profiles)
  unfolding refresh_found
  found-KeepsOthers p c h x u v t now a mine valid began e q ne =
      bind_returned (analyze_enumerated_projects k h.snapshot_id (x ∷ [])) _ u tt v e
        (λ _ y analyzed committed.
          let (valid', _) =
            subst (λ o. Safe u (final o)) analyzed
              ((analyze_enumerated_projects-Safe k h.snapshot_id (x ∷ [])).at u) valid in
          let (now', done) = commit_now-Committed k h.snapshot_id y v valid' committed in
          let same : v.store.tables.project_profiles ≡ y.store.tables.project_profiles =
            ap (λ z. z.project_profiles) done.done in
          ap (λ z. get q (scan h.snapshot_id z)) same
          ∙ analyzed_alone h.snapshot_id x u y analyzed q (rw mine ne)
          ∙ ap (get q) (began.copied c refl).0)

  single_body-KeepsOthers :
      (p c : ℕ) (h : JobHandle) (w v : World E) (t : SnapshotTrigger) (now : ℕ) (a : Tables)
      → IsValid w.store.tables
      → Began t (some c) now h.snapshot_id a w.store.tables
      → single_body k p h w ≡ returned tt v
      → (q : ℕ) → p ≢ q
      → get q (scan h.snapshot_id v.store.tables.project_profiles)
        ≡ get q (scan c a.project_profiles)
  unfolding single_body refresh_found
  single_body-KeepsOthers p c h w v t now a valid began e =
      bind_returned (on_env k.enumerate_projects) _ w tt v e (λ ps u listed rest.
        let (_, kept) = on_env-eq-returned k.enumerate_projects w u ps listed in
        by_match (find_project p ps) u (λ x is. find_project-eq-some p ps is) (rw kept valid)
          (rw kept began) rest)
    where
      by_match :
          (found : Option EnumeratedProject) (u : World E)
          → ((x : EnumeratedProject) → found ≡ some x → x.gitlab_project_id ≡ p)
          → IsValid u.store.tables
          → Began t (some c) now h.snapshot_id a u.store.tables
          → refresh_found k p h found u ≡ returned tt v
          → (q : ℕ) → p ≢ q
          → get q (scan h.snapshot_id v.store.tables.project_profiles)
            ≡ get q (scan c a.project_profiles)
      by_match none u is valid' began' r = absurd (
          then_raise k (finally (abort_now k h.snapshot_id) (on_gate (abort h)))
            (project_not_in_scope p) u v tt r)
      by_match (some x) u is valid' began' r =
          found-KeepsOthers p c h x u v t now a (is x refl) valid' began' r

  -- If the analyzer answers only profiles of the project that it is asked for, and a refresh of
  -- one project that starts from well-formed tables returns, then the pointer named a snapshot
  -- before and names one now, and in the two snapshots every other project has the same profile
  -- row or none.
  pub single_refresh_keeps_others :
      (p : ℕ) (w v : World E)
      → IsValid w.store.tables
      → single_refresh k p w ≡ returned tt v
      → (c : ℕ) × (w.store.tables.current_snapshot ≡ some (some c))
        × (s : ℕ) × ((v.store.tables.current_snapshot ≡ some (some s))
            × ((q : ℕ)
                → p ≢ q
                → get q (scan s v.store.tables.project_profiles)
                  ≡ get q (scan c w.store.tables.project_profiles)))
  single_refresh_keeps_others p =
      after_single_refresh k p
        (λ c s a b.
          (b.current_snapshot ≡ some (some s))
          × ((q : ℕ)
              → p ≢ q
              → get q (scan s b.project_profiles) ≡ get q (scan c a.project_profiles)))
        (λ c h w v t now a valid began e. (
          (single_body-Publishes k p c h w v t now a valid began e).current,
          single_body-KeepsOthers p c h w v t now a valid began e,
        ))
