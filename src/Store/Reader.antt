-- ===== src/Store/Reader.antt =====
-- The reader interface of src/project_knowledge_mcp/knowledge_store.py.
pub mod Reads
pub mod Views
pub mod Answers
pub mod Profiles
use Prim.Native.String.{◌++◌}
use gitlab_knowledege.Common.{
  ℕ, String, Option, none, some, List, [], ◌∷◌, map, ◌⊎◌, inl, inr, decimal,
}
use gitlab_knowledege.Exec.{
  Error, store_unavailable, sqlite_error, integrity_error, os_error, returned, Exec, pure, raise,
  catch, ◌>>=◌,
}
use gitlab_knowledege.Models.{ProjectProfile, SnapshotMetadata}
use gitlab_knowledege.Store.Rows.{scan, select, order_by_id}
use gitlab_knowledege.Store.Tables.{
  SnapshotRow, ProfileCells, KnowledgeStore, find_snapshot, execute,
}
use gitlab_knowledege.Store.Writer.{Codec}

-- The exception that leaves a `with _read_guard()` block.
unfoldable pub guarded : Error → Error
guarded (sqlite_error m) = store_unavailable m
guarded (integrity_error m) = store_unavailable m
guarded (os_error m) = store_unavailable m
guarded e = e

unfoldable pub read_guard : {A : Type 0} → Exec KnowledgeStore A → Exec KnowledgeStore A
unfolding guarded
read_guard m = catch m (λ e. raise (guarded e))

unfoldable pub pointer_of : Option (Option ℕ) → Exec KnowledgeStore (Option ℕ)
pointer_of none = raise (store_unavailable "current_snapshot row is missing")
pointer_of (some p) = pure p

unfoldable pub get_current_snapshot_id : Exec KnowledgeStore (Option ℕ)
unfolding pointer_of
get_current_snapshot_id = do
  found ← read_guard (execute (λ t. returned t.current_snapshot t))
  pointer_of found

unfoldable pub rehydrated : String ⊎ ProjectProfile → Exec KnowledgeStore ProjectProfile
rehydrated (inl why) = raise (store_unavailable ("failed to rehydrate Project_Profile: " ++ why))
rehydrated (inr profile) = pure profile

unfoldable pub rehydrate_profile : Codec → String → Exec KnowledgeStore ProjectProfile
unfolding rehydrated
rehydrate_profile codec json = rehydrated (codec.validate json)

unfoldable pub rehydrate_row :
    Codec → Option ProfileCells → Exec KnowledgeStore (Option ProjectProfile)
unfolding rehydrate_profile
rehydrate_row codec none = pure none
rehydrate_row codec (some cells) = do
  profile ← rehydrate_profile codec cells.profile_json
  pure (some profile)

unfoldable pub get_profile_in : Codec → ℕ → Option ℕ → Exec KnowledgeStore (Option ProjectProfile)
unfolding rehydrate_row
get_profile_in codec p none = pure none
get_profile_in codec p (some s) = do
  found ← read_guard (execute (λ t. returned (select s p t.project_profiles) t))
  rehydrate_row codec found

unfoldable pub get_profile : Codec → ℕ → Exec KnowledgeStore (Option ProjectProfile)
unfolding get_profile_in
get_profile codec p = do current ← get_current_snapshot_id; get_profile_in codec p current

-- `[self._rehydrate_profile(row[0]) for row in rows]`
unfoldable pub rehydrate_rows :
    Codec → List (ℕ × ProfileCells) → Exec KnowledgeStore (List ProjectProfile)
unfolding rehydrate_profile
rehydrate_rows codec [] = pure []
rehydrate_rows codec ((p, cells) ∷ rows) = do
  profile ← rehydrate_profile codec cells.profile_json
  profiles ← rehydrate_rows codec rows
  pure (profile ∷ profiles)

unfoldable pub list_profiles_in : Codec → Option ℕ → Exec KnowledgeStore (List ProjectProfile)
list_profiles_in codec none = pure []
list_profiles_in codec (some s) = do
  rows ← read_guard (execute (λ t. returned (order_by_id (scan s t.project_profiles)) t))
  rehydrate_rows codec rows

unfoldable pub list_profiles : Codec → Exec KnowledgeStore (List ProjectProfile)
unfolding list_profiles_in
list_profiles codec = do current ← get_current_snapshot_id; list_profiles_in codec current

abbrev pub sha_rows : List (ℕ × ProfileCells) → List (ℕ × Option String)
sha_rows = map (λ e. (e.0, e.1.analysis_branch_sha))

-- `commit_sha_by_project` is the dict of the rows; a project has one row in a snapshot.
unfoldable pub metadata_of :
    ℕ → Option SnapshotRow → List (ℕ × ProfileCells) → Exec KnowledgeStore (Option SnapshotMetadata)
metadata_of s none rows =
    raise (store_unavailable ("current_snapshot points to missing snapshot " ++ decimal s))
metadata_of s (some r) rows = pure (
    some (record {
      snapshot_id = s;
      started_at = r.started_at;
      completed_at = r.completed_at;
      trigger = r.trigger;
      commit_sha_by_project = sha_rows rows;
    }))

-- The two queries under one read guard.
unfoldable pub metadata_rows :
    ℕ → Exec KnowledgeStore (Option SnapshotRow × List (ℕ × ProfileCells))
metadata_rows s = do
  found ← execute (λ t. returned (find_snapshot s t.snapshots) t)
  rows ← execute (λ t. returned (scan s t.project_profiles) t)
  pure (found, rows)

unfoldable pub snapshot_metadata_in : Option ℕ → Exec KnowledgeStore (Option SnapshotMetadata)
unfolding metadata_of
snapshot_metadata_in none = pure none
snapshot_metadata_in (some s) = do
  (found, rows) ← read_guard (metadata_rows s)
  metadata_of s found rows

unfoldable pub get_snapshot_metadata : Exec KnowledgeStore (Option SnapshotMetadata)
unfolding snapshot_metadata_in
get_snapshot_metadata = do current ← get_current_snapshot_id; snapshot_metadata_in current
