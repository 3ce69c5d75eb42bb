-- ===== src/Store/Writer/Commit.antt =====
-- `commit_snapshot` of src/project_knowledge_mcp/knowledge_store.py: the pointer swap.
use mathlib.Core.Path.{subst}
use gitlab_knowledege.Common.{ℕ, ◌≡◌, ◌≢◌, refl, ◌∙◌, true, false, none, some, List, [], ◌∷◌, arith}
use gitlab_knowledege.Exec.{returned, raise}
use gitlab_knowledege.Exec.Inversion.{bind_returned}
use gitlab_knowledege.Models.{in_progress, completed}
use gitlab_knowledege.Store.Invariant.{IsValid}
use gitlab_knowledege.Store.Tables.{
  SnapshotRow, Tables, KnowledgeStore, find_snapshot, status_of, set_status, execute,
  require_in_progress,
}
use gitlab_knowledege.Store.Tables.Frame.{status_of-set_status_self}
use gitlab_knowledege.Store.Tables.Inversion.{
  execute-eq-returned, transaction-eq-returned, require-eq-returned, require-NoWrite, NoWrite,
  bind-NoWrite, transaction-NoWrite,
}
use gitlab_knowledege.Store.Writer.{mark_completed, move_pointer, publish, commit_snapshot}

-- The snapshot was in progress; it is completed and current now, and nothing else has changed.
pub record Committed (s now : ℕ) (a b : Tables) : Type 0 where
  pub was_open : status_of s a.snapshots ≡ some in_progress
  pub done : b ≡ record a {
    snapshots = set_status s completed now a.snapshots;
    current_snapshot = some (some s);
  }

mark_completed-eq-returned :
    (s now : ℕ) (t u : Tables)
    → mark_completed s now t ≡ returned true u
    → (status_of s t.snapshots ≡ some in_progress)
      × (u ≡ record t { snapshots = set_status s completed now t.snapshots })
unfolding mark_completed
mark_completed-eq-returned s now t u h = ground arith

move_pointer-eq-returned :
    (s : ℕ) (t u : Tables)
    → t.current_snapshot ≢ none
    → move_pointer s t ≡ returned tt u
    → u ≡ record t { current_snapshot = some (some s) }
unfolding move_pointer
move_pointer-eq-returned s t u seeded h = ground arith

publish-Committed :
    (s now : ℕ) (a b : KnowledgeStore)
    → IsValid a.tables
    → publish s now a ≡ returned tt b
    → Committed s now a.tables b.tables
unfolding publish raise
publish-Committed s now a b valid h =
    bind_returned (execute (mark_completed s now)) _ a tt b h (elim [
      | true ↦ λ c flipped moved.
          let (was, first) =
            mark_completed-eq-returned s now a.tables c.tables
              (execute-eq-returned (mark_completed s now) a flipped) in
          let second =
            move_pointer-eq-returned s c.tables b.tables (λ e. valid.seeded (cc))
              (execute-eq-returned (move_pointer s) c moved) in
          record { was_open = was; done = cc }
      | false ↦ λ c flipped moved. cc
    ])

-- A commit that returns, on well-formed tables, found the snapshot in progress, has marked it
-- completed, has set the pointer to it, and has changed nothing else.
pub commit_snapshot-Committed :
    (s now : ℕ) (a b : KnowledgeStore)
    → IsValid a.tables
    → commit_snapshot s now a ≡ returned tt b
    → Committed s now a.tables b.tables
unfolding commit_snapshot
commit_snapshot-Committed s now a b valid h =
    bind_returned (require_in_progress s) _ a tt b h (λ _ c checked rest.
      let (d, begun, run) = transaction-eq-returned (publish s now) c tt b rest in
      let start : d.tables ≡ a.tables = begun ∙ (require-eq-returned s a c checked).0 in
      subst (λ k. Committed s now k b.tables) start
        (publish-Committed s now d b (rw start valid) run))

-- A commit that raises has left the tables as they were.
pub commit_snapshot-NoWrite :
    (s now : ℕ) (a : KnowledgeStore) → NoWrite a.tables (commit_snapshot s now a)
unfolding commit_snapshot
commit_snapshot-NoWrite s now a =
    bind-NoWrite (require_in_progress s) _ a (require-NoWrite s a) (λ _ c checked.
      rw (← (require-eq-returned s a c checked).0) (transaction-NoWrite (publish s now) c))

find_snapshot-set_status-none :
    (s u now : ℕ) (t : List SnapshotRow)
    → find_snapshot u (set_status s completed now t) ≡ none
    → find_snapshot u t ≡ none
unfolding find_snapshot set_status
find_snapshot-set_status-none s u now [] h = refl
find_snapshot-set_status-none s u now (r ∷ t) h =
    ground (arith, find_snapshot-set_status-none s u now t)

-- Tables that a commit made from well-formed tables are well formed.
pub Committed-IsValid : (s now : ℕ) (a b : Tables) → IsValid a → Committed s now a b → IsValid b
Committed-IsValid s now a b valid c = rw c.done (record {
  seeded = ground arith;
  published = λ u e.
      let same : s ≡ u = ground arith in
      subst (λ v. status_of v (set_status s completed now a.snapshots) ≡ some completed) same
        (status_of-set_status_self s completed in_progress now a.snapshots c.was_open);
  profiles_owned =
      λ u h. valid.profiles_owned u (find_snapshot-set_status-none s u now a.snapshots h);
  catalog_owned =
      λ u h. valid.catalog_owned u (find_snapshot-set_status-none s u now a.snapshots h);
  profiles_distinct = valid.profiles_distinct;
  catalog_distinct = valid.catalog_distinct;
})
