-- ===== src/Catalog.antt =====
-- The Project_Catalog of src/project_knowledge_mcp/project_catalog.py, over the store's connection.
pub mod Populate
pub mod Reads
pub mod Answers
use gitlab_knowledege.Common.{ℕ, String, Bool, true, false, Option, none, some, List, [], ◌∷◌, map}
use gitlab_knowledege.Exec.{returned, Exec, pure, ◌>>=◌, ◌>>◌}
use gitlab_knowledege.Models.{EnumeratedProject}
use gitlab_knowledege.Store.Rows.{scan, select, upsert, order_by_id}
use gitlab_knowledege.Store.Tables.{
  Tables, KnowledgeStore, execute, transaction, require_in_progress,
}
use gitlab_knowledege.Store.Reader.{read_guard, get_current_snapshot_id}

pub record InScopeProject : Type 0 where
  pub gitlab_project_id : ℕ
  pub full_path : String

unfoldable pub upsert_catalog : ℕ → EnumeratedProject → Exec Tables (Unit {0})
upsert_catalog s project t = returned tt (record t {
  project_catalog = upsert s project.gitlab_project_id project.full_path t.project_catalog;
})

unfoldable pub upsert_all : ℕ → List EnumeratedProject → Exec KnowledgeStore (Unit {0})
upsert_all s [] = pure tt
upsert_all s (project ∷ projects) = do execute (upsert_catalog s project); upsert_all s projects

unfoldable pub populate_in_scope : ℕ → List EnumeratedProject → Exec KnowledgeStore (Unit {0})
populate_in_scope s projects = do require_in_progress s; transaction (upsert_all s projects)

abbrev pub in_scope_rows : List (ℕ × String) → List InScopeProject
in_scope_rows = map (λ e. record { gitlab_project_id = e.0; full_path = e.1 })

unfoldable pub list_in_scope_of : Option ℕ → Exec KnowledgeStore (List InScopeProject)
list_in_scope_of none = pure []
list_in_scope_of (some s) = do
  rows ← read_guard (execute (λ t. returned (order_by_id (scan s t.project_catalog)) t))
  pure (in_scope_rows rows)

unfoldable pub list_in_scope : Exec KnowledgeStore (List InScopeProject)
unfolding list_in_scope_of
list_in_scope = do current ← get_current_snapshot_id; list_in_scope_of current

abbrev pub is_some {ℓ} : {A : Type ℓ} → Option A → Bool
is_some none = false
is_some (some a) = true

unfoldable pub is_in_scope_of : ℕ → Option ℕ → Exec KnowledgeStore Bool
is_in_scope_of p none = pure false
is_in_scope_of p (some s) = do
  row ← read_guard (execute (λ t. returned (select s p t.project_catalog) t))
  pure (is_some row)

unfoldable pub is_in_scope : ℕ → Exec KnowledgeStore Bool
unfolding is_in_scope_of
is_in_scope p = do current ← get_current_snapshot_id; is_in_scope_of p current
