-- ===== src/Store/Serves.antt =====
-- A write, a commit and a read of src/project_knowledge_mcp/knowledge_store.py on a store
-- without faults.
use gitlab_knowledege.Common.{
  ℕ, String, ◌≡◌, ◌≢◌, refl, true, false, none, some, [], arith, ==-refl, inr,
}
use gitlab_knowledege.Exec.{returned, Exec, catch, ◌>>=◌, ◌>>◌}
use gitlab_knowledege.Models.{ProjectProfile, in_progress, completed}
use gitlab_knowledege.Store.Rows.{scan, upsert}
use gitlab_knowledege.Store.Rows.Laws.{get, get-put, select-eq-get, scan-upsert_self}
use gitlab_knowledege.Store.Tables.{
  ProfileCells, Tables, KnowledgeStore, status_of, set_status, execute, transaction, atomically,
  require_in_progress,
}
use gitlab_knowledege.Store.Writer.{
  Codec, is_empty, upsert_profile, write_profile, mark_completed, move_pointer, publish,
  commit_snapshot,
}
use gitlab_knowledege.Store.Reader.{read_guard, get_current_snapshot_id, get_profile}
use gitlab_knowledege.Store.Reader.Views.{store}

-- Open, and with no fault to come.
abbrev pub healthy : Tables → KnowledgeStore
healthy t = store t true []

execute-healthy :
    {A : Type 0} (m : Exec Tables A) (t u : Tables) (a : A)
    → m t ≡ returned a u
    → execute m (healthy t) ≡ returned a (healthy u)
unfolding execute
execute-healthy m t u a h = rw h refl

require_healthy :
    (s : ℕ) (t : Tables)
    → status_of s t.snapshots ≡ some in_progress
    → require_in_progress s (healthy t) ≡ returned tt (healthy t)
unfolding require_in_progress ◌>>=◌ execute
require_healthy s t h = rw h refl

-- The cells of a profile's row.
abbrev pub cells_of : Codec → ProjectProfile → ℕ → String → ProfileCells
cells_of codec profile produced_at sha = record {
  full_path = profile.full_path;
  analysis_branch = profile.analysis_branch;
  analysis_branch_sha = some sha;
  produced_at = produced_at;
  profile_json = codec.dump profile;
}

write_profile-healthy :
    (codec : Codec) (s : ℕ) (profile : ProjectProfile) (produced_at : ℕ) (sha : String) (t : Tables)
    → is_empty sha ≡ false
    → status_of s t.snapshots ≡ some in_progress
    → write_profile codec s profile produced_at sha (healthy t)
      ≡ returned tt (
          healthy (record t {
            project_profiles =
                upsert s profile.gitlab_project_id
                  (cells_of codec profile produced_at sha)
                  t.project_profiles;
          }))
unfolding write_profile ◌>>=◌ execute upsert_profile
write_profile-healthy codec s profile produced_at sha t nonempty opened =
    rw (nonempty, require_healthy s t opened) refl

commit_snapshot-healthy :
    (s now : ℕ) (t : Tables)
    → status_of s t.snapshots ≡ some in_progress
    → t.current_snapshot ≢ none
    → commit_snapshot s now (healthy t)
      ≡ returned tt (
          healthy (record t {
            snapshots = set_status s completed now t.snapshots;
            current_snapshot = some (some s);
          }))
unfolding commit_snapshot ◌>>=◌ execute transaction atomically publish mark_completed move_pointer
commit_snapshot-healthy s now t opened seeded = rw (require_healthy s t opened) (ground arith)

get_profile-healthy :
    (codec : Codec) (s p : ℕ) (t : Tables) (cells : ProfileCells) (profile : ProjectProfile)
    → t.current_snapshot ≡ some (some s)
    → get p (scan s t.project_profiles) ≡ some cells
    → codec.validate cells.profile_json ≡ inr profile
    → get_profile codec p (healthy t) ≡ returned (some profile) (healthy t)
unfolding get_profile ◌>>=◌ execute get_current_snapshot_id read_guard catch
get_profile-healthy codec s p t cells profile current found valid =
    rw (current, select-eq-get s p t.project_profiles, found, valid) refl

-- On an open store without faults whose pointer row is there: writing a profile, with a commit
-- SHA that is not empty, into a snapshot in progress, committing the snapshot and reading the
-- profile's project all return, and the read gives the profile, if model_validate_json gives it
-- back from its model_dump_json.
pub profile_round_trip :
    (codec : Codec) (s now : ℕ) (profile : ProjectProfile) (produced_at : ℕ) (sha : String)
    (t : Tables)
    → codec.validate (codec.dump profile) ≡ inr profile
    → is_empty sha ≡ false
    → status_of s t.snapshots ≡ some in_progress
    → t.current_snapshot ≢ none
    → (u : KnowledgeStore) × ((do
      write_profile codec s profile produced_at sha
      commit_snapshot s now
      get_profile codec profile.gitlab_project_id)
          (healthy t)
        ≡ returned (some profile) u)
unfolding ◌>>=◌
profile_round_trip codec s now profile produced_at sha t valid nonempty opened seeded =
    let p = profile.gitlab_project_id in
    let cells = cells_of codec profile produced_at sha in
    let written : Tables = record t { project_profiles = upsert s p cells t.project_profiles } in
    let committed : Tables = record written {
      snapshots = set_status s completed now t.snapshots;
      current_snapshot = some (some s);
    } in
    let found : get p (scan s written.project_profiles) ≡ some cells =
      rw
        (
          scan-upsert_self s p cells t.project_profiles,
          get-put p p cells (scan s t.project_profiles),
          ==-refl p,
        )
        refl in
    (
      healthy committed,
      rw
          (
            write_profile-healthy codec s profile produced_at sha t nonempty opened,
            commit_snapshot-healthy s now written opened seeded,
          )
          (get_profile-healthy codec s p committed cells profile refl found valid),
    )
