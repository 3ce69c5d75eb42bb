-- ===== src/Store/Reader/Reads.antt =====
-- The reads of src/project_knowledge_mcp/knowledge_store.py, for relations that a read keeps.
use gitlab_knowledege.Common.{ℕ, Option, none, some}
use gitlab_knowledege.Exec.{returned}
use gitlab_knowledege.Exec.Relates.{
  IsPreorder, Relates, Relates-pure, Relates-raise, Relates-bind, Relates-catch,
}
use gitlab_knowledege.Store.Tables.{Tables, execute}
use gitlab_knowledege.Store.Tables.Rules.{OnTables, OnTables-IsPreorder, Relates-execute}
use gitlab_knowledege.Store.Reader.{guarded, read_guard, pointer_of, get_current_snapshot_id}

module _ {R : Tables → Tables → Type 0} (order : IsPreorder R) where
  -- A SELECT behind the read guard.
  pub Relates-read :
      {A : Type 0} (f : Tables → A)
      → Relates (OnTables R) (read_guard (execute (λ t. returned (f t) t)))
  unfolding read_guard
  Relates-read f =
      Relates-catch (OnTables-IsPreorder order) _ _
        (Relates-execute order _ (record { at = order.reflexive }))
        (λ e. Relates-raise (OnTables-IsPreorder order) (guarded e))

  pointer_of-Related : (o : Option (Option ℕ)) → Relates (OnTables R) (pointer_of o)
  unfolding pointer_of
  pointer_of-Related none = Relates-raise (OnTables-IsPreorder order) _
  pointer_of-Related (some p) = Relates-pure (OnTables-IsPreorder order) p

  pub get_current_snapshot_id-Related : Relates (OnTables R) get_current_snapshot_id
  unfolding get_current_snapshot_id
  get_current_snapshot_id-Related =
      Relates-bind (OnTables-IsPreorder order) _ pointer_of (Relates-read (λ t. t.current_snapshot))
        pointer_of-Related
