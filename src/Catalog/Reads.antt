-- ===== src/Catalog/Reads.antt =====
-- The scope check of src/project_knowledge_mcp/project_catalog.py, for relations that a read keeps.
use gitlab_knowledege.Common.{ℕ, Option, none, some}
use gitlab_knowledege.Exec.Relates.{IsPreorder, Relates, Relates-pure, Relates-bind}
use gitlab_knowledege.Store.Rows.{select}
use gitlab_knowledege.Store.Tables.{Tables}
use gitlab_knowledege.Store.Tables.Rules.{OnTables, OnTables-IsPreorder}
use gitlab_knowledege.Store.Reader.{get_current_snapshot_id}
use gitlab_knowledege.Store.Reader.Reads.{Relates-read, get_current_snapshot_id-Related}
use gitlab_knowledege.Catalog.{is_some, is_in_scope_of, is_in_scope}

module _ {R : Tables → Tables → Type 0} (order : IsPreorder R) where
  is_in_scope_of-Related : (p : ℕ) (o : Option ℕ) → Relates (OnTables R) (is_in_scope_of p o)
  unfolding is_in_scope_of
  is_in_scope_of-Related p none = Relates-pure (OnTables-IsPreorder order) _
  is_in_scope_of-Related p (some s) =
      Relates-bind (OnTables-IsPreorder order) _ _
        (Relates-read order (λ t. select s p t.project_catalog))
        (λ row. Relates-pure (OnTables-IsPreorder order) (is_some row))

  pub is_in_scope-Related : (p : ℕ) → Relates (OnTables R) (is_in_scope p)
  unfolding is_in_scope
  is_in_scope-Related p =
      Relates-bind (OnTables-IsPreorder order) get_current_snapshot_id _
        (get_current_snapshot_id-Related order) (is_in_scope_of-Related p)
