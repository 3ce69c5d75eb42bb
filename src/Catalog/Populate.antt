-- ===== src/Catalog/Populate.antt =====
-- `populate_in_scope` of src/project_knowledge_mcp/project_catalog.py: what it writes,
-- and what readers see of it.
use mathlib.Core.Path.{subst}
use gitlab_knowledege.Common.{ℕ, String, ◌≡◌, refl, ap, ◌∙◌, some, List, [], ◌∷◌, arith}
use gitlab_knowledege.Exec.{returned, pure}
use gitlab_knowledege.Exec.Inversion.{bind_returned}
use gitlab_knowledege.Exec.Relates.{IsPreorder, Relates, Relates-pure, Relates-bind}
use gitlab_knowledege.Models.{EnumeratedProject, in_progress}
use gitlab_knowledege.Store.Invariant.{
  IsValid, SameView, SameView-refl, SameView-trans, ReaderSafe, ReaderSafe-IsPreorder, not_current,
  SameOutside-ReaderSafe,
}
use gitlab_knowledege.Store.Rows.{Row, scan, upsert}
use gitlab_knowledege.Store.Rows.Laws.{put, put-Distinct, scan-upsert_self, scan-upsert_ne}
use gitlab_knowledege.Store.Tables.{
  Tables, KnowledgeStore, status_of, execute, transaction, require_in_progress,
}
use gitlab_knowledege.Store.Tables.Inversion.{
  execute-eq-returned, transaction-eq-returned, require-eq-returned,
}
use gitlab_knowledege.Store.Tables.Rules.{
  OnTables, OnTables-IsPreorder, Relates-execute, Relates-transaction, Relates-require,
}
use gitlab_knowledege.Store.Writer.Keeps.{exists_of_status}
use gitlab_knowledege.Catalog.{upsert_catalog, upsert_all, populate_in_scope}

-- `ReaderSafe` for work on a snapshot that is, and stays, in progress.
abbrev OpenSafe : ℕ → Tables → Tables → Type 0
OpenSafe s a b =
    status_of s a.snapshots ≡ some in_progress
    → IsValid a
    → (status_of s b.snapshots ≡ some in_progress) × IsValid b × SameView a b

OpenSafe-IsPreorder : (s : ℕ) → IsPreorder (OpenSafe s)
OpenSafe-IsPreorder s = record {
  reflexive = λ t opened valid. (opened, valid, SameView-refl t);
  transitive = λ f g opened valid.
      let (opened', valid', view') = f opened valid in
      let (opened'', valid'', view'') = g opened' valid' in
      (opened'', valid'', SameView-trans view' view'');
}

module _ (s : ℕ) where
  upsert_catalog-OpenSafe : (p : EnumeratedProject) → Relates (OpenSafe s) (upsert_catalog s p)
  unfolding upsert_catalog
  upsert_catalog-OpenSafe p = record {
    at = λ t opened valid.
        let (valid', view) =
          SameOutside-ReaderSafe s t _ valid
            (record {
              current = refl;
              snapshots = λ u _. refl;
              profiles = λ u _. refl;
              catalog =
                  λ u ne. scan-upsert_ne s u p.gitlab_project_id p.full_path t.project_catalog ne;
            })
            (not_current t s valid opened (ground arith)) (exists_of_status s t.snapshots opened)
            (valid.profiles_distinct s)
            (rw (scan-upsert_self s p.gitlab_project_id p.full_path t.project_catalog) (
              put-Distinct p.gitlab_project_id p.full_path (scan s t.project_catalog)
                (valid.catalog_distinct s))) in
        (opened, valid', view);
  }

  upsert_all-OpenSafe :
      (ps : List EnumeratedProject) → Relates (OnTables (OpenSafe s)) (upsert_all s ps)
  unfolding upsert_all
  upsert_all-OpenSafe [] = Relates-pure (OnTables-IsPreorder (OpenSafe-IsPreorder s)) tt
  upsert_all-OpenSafe (p ∷ ps) =
      Relates-bind (OnTables-IsPreorder (OpenSafe-IsPreorder s)) (execute (upsert_catalog s p)) _
        (Relates-execute (OpenSafe-IsPreorder s) (upsert_catalog s p) (upsert_catalog-OpenSafe p))
        (λ _. upsert_all-OpenSafe ps)

  -- From well-formed tables, populate_in_scope, whether it returns or raises, keeps the tables
  -- well formed and what readers see.
  pub populate_in_scope-ReaderSafe :
      (ps : List EnumeratedProject) → Relates (OnTables ReaderSafe) (populate_in_scope s ps)
  unfolding populate_in_scope
  populate_in_scope-ReaderSafe ps =
      Relates-require ReaderSafe-IsPreorder s (transaction (upsert_all s ps)) (λ b opened valid.
        let (_, valid', view) =
          (Relates-transaction (OpenSafe-IsPreorder s) (upsert_all s ps)
              (upsert_all-OpenSafe ps)).at
            b opened valid in
        (valid', view))

  -- The catalog rows after the loop.
  abbrev pub populated : List EnumeratedProject → List (Row String) → List (Row String)
  populated [] rows = rows
  populated (p ∷ ps) rows = populated ps (upsert s p.gitlab_project_id p.full_path rows)

  upsert_catalog-eq-returned :
      (p : EnumeratedProject) (t u : Tables)
      → upsert_catalog s p t ≡ returned tt u
      → u
        ≡ record t { project_catalog = upsert s p.gitlab_project_id p.full_path t.project_catalog }
  unfolding upsert_catalog
  upsert_catalog-eq-returned p t u h = ground arith

  upsert_all-eq-returned :
      (ps : List EnumeratedProject) (a b : KnowledgeStore)
      → upsert_all s ps a ≡ returned tt b
      → b.tables ≡ record a.tables { project_catalog = populated ps a.tables.project_catalog }
  unfolding upsert_all pure
  upsert_all-eq-returned [] a b h = ground arith
  upsert_all-eq-returned (p ∷ ps) a b h =
      bind_returned (execute (upsert_catalog s p)) _ a tt b h (λ _ c first rest.
        let one =
          upsert_catalog-eq-returned p a.tables c.tables
            (execute-eq-returned (upsert_catalog s p) a first) in
        subst (λ k. b.tables ≡ record k { project_catalog = populated ps k.project_catalog }) one
          (upsert_all-eq-returned ps c b rest))

  -- A populate_in_scope that returns has upserted the row of each enumerated project in order,
  -- and has changed nothing but the catalog.
  pub populate_in_scope-eq-returned :
      (ps : List EnumeratedProject) (a b : KnowledgeStore)
      → populate_in_scope s ps a ≡ returned tt b
      → b.tables ≡ record a.tables { project_catalog = populated ps a.tables.project_catalog }
  unfolding populate_in_scope
  populate_in_scope-eq-returned ps a b h =
      bind_returned (require_in_progress s) _ a tt b h (λ _ c checked rest.
        let (d, begun, run) = transaction-eq-returned (upsert_all s ps) c tt b rest in
        let start : d.tables ≡ a.tables = begun ∙ (require-eq-returned s a c checked).0 in
        subst (λ k. b.tables ≡ record k { project_catalog = populated ps k.project_catalog }) start
          (upsert_all-eq-returned ps d b run))

-- The projects of an enumeration as an association list, a later one over an earlier one.
abbrev pub put_all : List EnumeratedProject → List (ℕ × String) → List (ℕ × String)
put_all [] l = l
put_all (p ∷ ps) l = put_all ps (put p.gitlab_project_id p.full_path l)

-- The catalog rows of a snapshot after the upserts are its association list before them with each
-- enumerated project put in turn.
pub scan-populated :
    (s : ℕ) (ps : List EnumeratedProject) (rows : List (Row String))
    → scan s (populated s ps rows) ≡ put_all ps (scan s rows)
scan-populated s [] rows = refl
scan-populated s (p ∷ ps) rows =
    scan-populated s ps (upsert s p.gitlab_project_id p.full_path rows)
    ∙ ap (put_all ps) (scan-upsert_self s p.gitlab_project_id p.full_path rows)
