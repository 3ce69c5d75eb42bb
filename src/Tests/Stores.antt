-- ===== src/Tests/Stores.antt =====
-- Examples on the store.
use gitlab_knowledege.Common.{ℕ, ◌≡◌, refl, true, false, none, some, List, [], ◌∷◌, arith, String}
use gitlab_knowledege.Exec.{returned, final, ◌>>=◌, ◌>>◌}
use gitlab_knowledege.Models.{SnapshotTrigger, single_project, in_progress}
use gitlab_knowledege.Store.Invariant.{IsValid, SameView}
use gitlab_knowledege.Store.Rows.{scan, upsert, insert_rows, insert_select, select}
use gitlab_knowledege.Store.Rows.Laws.{get, Distinct}
use gitlab_knowledege.Store.Tables.{
  KnowledgeStore, find_snapshot, next_rowid, set_status, status_of, execute, transaction,
  atomically, require_in_progress,
}
use gitlab_knowledege.Store.Tables.Inversion.{NoWrite}
use gitlab_knowledege.Store.Writer.{
  member, coerce_trigger, check_parent, parent_exists, insert_snapshot, copy_parent, copy_profiles,
  copy_catalog, insert_and_copy, begin_snapshot, mark_completed, move_pointer, publish,
  commit_snapshot, is_empty, write_profile,
}
use gitlab_knowledege.Store.Writer.Opened.{Began}
use gitlab_knowledege.Store.Writer.Begin.{begin_snapshot-Began, begin_snapshot-NoWrite}
use gitlab_knowledege.Store.Writer.Commit.{
  Committed, commit_snapshot-Committed, commit_snapshot-NoWrite,
}
use gitlab_knowledege.Store.Writer.Keeps.{begin_snapshot-ReaderSafe}
use gitlab_knowledege.Store.Reader.{get_profile, list_profiles, get_snapshot_metadata}
use gitlab_knowledege.Store.Reader.Views.{store, answer}
use gitlab_knowledege.Store.Reader.Answers.{answers-SameView}
use gitlab_knowledege.Store.Serves.{healthy, profile_round_trip}
use gitlab_knowledege.Catalog.Answers.{
  catalog_answers-SameView, in_scope_healthy, path_of, IsAscending,
}
use gitlab_knowledege.Catalog.{InScopeProject}
use gitlab_knowledege.Catalog.{
  list_in_scope, is_in_scope, is_some, populate_in_scope, upsert_all, upsert_catalog,
}
use gitlab_knowledege.Tests.{codec, shop_profile, shop, attic, opened, published, open_store}

pub published-IsValid : IsValid published
unfolding scan find_snapshot get
published-IsValid = record {
  seeded = ground arith;
  published = λ s h. ground arith;
  profiles_owned = λ s h. ground arith;
  catalog_owned = λ s h. ground arith;
  profiles_distinct = λ s. ground arith;
  catalog_distinct = λ s. ground arith;
}

opened-IsValid : IsValid opened
unfolding scan
opened-IsValid = record {
  seeded = ground arith;
  published = λ s h. cc;
  profiles_owned = λ s h. refl;
  catalog_owned = λ s h. refl;
  profiles_distinct = λ s. tt;
  catalog_distinct = λ s. tt;
}

-- A refresh of project 7 has begun.
abbrev refreshing : KnowledgeStore
refreshing = final (begin_snapshot (member single_project) (some 1) 6 (open_store published))

refresh_begins :
    begin_snapshot (member single_project) (some 1) 6 (open_store published) ≡ returned 2 refreshing
unfolding execute transaction atomically find_snapshot next_rowid coerce_trigger check_parent
    parent_exists insert_snapshot copy_parent copy_profiles copy_catalog insert_and_copy
    begin_snapshot insert_select insert_rows scan select ◌>>=◌
refresh_begins = refl

begin_snapshot-Began_example :
    (t : SnapshotTrigger) × Began t (some 1) 6 2 published refreshing.tables
begin_snapshot-Began_example =
    begin_snapshot-Began (member single_project) (some 1) 6 2 (open_store published) refreshing
      published-IsValid refresh_begins

begin_snapshot-NoWrite_example :
    NoWrite published (begin_snapshot (member single_project) none 6 (open_store published))
begin_snapshot-NoWrite_example =
    begin_snapshot-NoWrite (member single_project) none 6 (open_store published)

abbrev committed : KnowledgeStore
committed = final (commit_snapshot 1 8 (open_store opened))

opened_commits : commit_snapshot 1 8 (open_store opened) ≡ returned tt committed
unfolding execute transaction atomically find_snapshot set_status require_in_progress mark_completed
    move_pointer publish commit_snapshot ◌>>=◌
opened_commits = refl

commit_snapshot-Committed_example : Committed 1 8 opened committed.tables
commit_snapshot-Committed_example =
    commit_snapshot-Committed 1 8 (open_store opened) committed opened-IsValid opened_commits

commit_snapshot-NoWrite_example : NoWrite published (commit_snapshot 1 8 (open_store published))
commit_snapshot-NoWrite_example = commit_snapshot-NoWrite 1 8 (open_store published)

populates :
    populate_in_scope 1 (shop ∷ attic ∷ []) (open_store opened)
    ≡ returned tt (final (populate_in_scope 1 (shop ∷ attic ∷ []) (open_store opened)))
unfolding execute transaction atomically find_snapshot require_in_progress populate_in_scope
    upsert_all upsert_catalog upsert ◌>>=◌
populates = refl

abbrev two_rows : List (ℕ × String)
two_rows = (7, "shop") ∷ (5, "till") ∷ []

unordered : Distinct two_rows
unfolding get
unordered = (refl, (refl, tt))

sha_given : is_empty "c0ffee" ≡ false
unfolding is_empty
sha_given = refl

opened_status : status_of 1 opened.snapshots ≡ some in_progress
unfolding find_snapshot
opened_status = refl

profile_round_trip_example :
    (u : KnowledgeStore) × ((do
      write_profile codec 1 shop_profile 3 "c0ffee"
      commit_snapshot 1 8
      get_profile codec 7)
        (healthy opened)
      ≡ returned (some shop_profile) u)
profile_round_trip_example =
    profile_round_trip codec 1 8 shop_profile 3 "c0ffee" opened refl sha_given opened_status
      (λ h. cc)

same_as_published : SameView published refreshing.tables
same_as_published =
    ((begin_snapshot-ReaderSafe (member single_project) (some 1) 6).at (open_store published)
      published-IsValid).1

answers-SameView_example :
    (answer (get_profile codec 7 (store published true []))
      ≡ answer (get_profile codec 7 (store refreshing.tables true [])))
    × (answer (list_profiles codec (store published true []))
        ≡ answer (list_profiles codec (store refreshing.tables true [])))
    × (answer (get_snapshot_metadata (store published true []))
        ≡ answer (get_snapshot_metadata (store refreshing.tables true [])))
answers-SameView_example = answers-SameView same_as_published codec 7 true []

catalog_answers-SameView_example :
    (answer (list_in_scope (store published true []))
      ≡ answer (list_in_scope (store refreshing.tables true [])))
    × (answer (is_in_scope 7 (store published true []))
        ≡ answer (is_in_scope 7 (store refreshing.tables true [])))
catalog_answers-SameView_example = catalog_answers-SameView same_as_published 7 true []

in_scope_healthy_example :
    (ps : List InScopeProject) × (list_in_scope (healthy published)
      ≡ returned ps (healthy published))
    × IsAscending ps
    × ((p : ℕ)
        → (path_of p ps ≡ get p (scan 1 published.project_catalog))
          × (is_in_scope p (healthy published)
              ≡ returned (is_some (path_of p ps)) (healthy published)))
in_scope_healthy_example = in_scope_healthy 1 published refl published-IsValid
