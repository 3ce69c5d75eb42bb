-- ===== src/Store/Reader/Profiles.antt =====
-- get_profile of src/project_knowledge_mcp/knowledge_store.py on a store without faults.
use Prim.Native.String.{◌++◌}
use gitlab_knowledege.Common.{ℕ, ◌≡◌, refl, ◌∙◌, Option, none, some, String, ◌⊎◌, inl, inr}
use gitlab_knowledege.Exec.{
  store_unavailable, Outcome, returned, raised, pure, raise, resume, catch, ◌>>=◌,
}
use gitlab_knowledege.Exec.Inversion.{bind_run}
use gitlab_knowledege.Models.{ProjectProfile}
use gitlab_knowledege.Store.Rows.{scan}
use gitlab_knowledege.Store.Rows.Laws.{get, select-eq-get}
use gitlab_knowledege.Store.Tables.{ProfileCells, Tables, KnowledgeStore, execute}
use gitlab_knowledege.Store.Writer.{Codec}
use gitlab_knowledege.Store.Reader.{
  get_current_snapshot_id, read_guard, get_profile_in, get_profile, rehydrated, rehydrate_profile,
  rehydrate_row,
}
use gitlab_knowledege.Store.Serves.{healthy}

-- The answer of the store to a row that it may have.
abbrev pub validated :
    String ⊎ ProjectProfile → KnowledgeStore → Outcome KnowledgeStore (Option ProjectProfile)
validated (inl why) s =
    raised (store_unavailable ("failed to rehydrate Project_Profile: " ++ why)) s
validated (inr profile) s = returned (some profile) s

abbrev pub profile_of :
    Codec → Option ProfileCells → KnowledgeStore → Outcome KnowledgeStore (Option ProjectProfile)
profile_of codec none s = returned none s
profile_of codec (some cells) s = validated (codec.validate cells.profile_json) s

rehydrated-eq-validated :
    (o : String ⊎ ProjectProfile) (s : KnowledgeStore)
    → resume (rehydrated o s) (λ profile. pure (some profile)) ≡ validated o s
unfolding rehydrated pure raise
rehydrated-eq-validated (inl why) s = refl
rehydrated-eq-validated (inr profile) s = refl

rehydrate_row-eq-profile_of :
    (codec : Codec) (row : Option ProfileCells) (s : KnowledgeStore)
    → rehydrate_row codec row s ≡ profile_of codec row s
unfolding rehydrate_row rehydrate_profile ◌>>=◌
rehydrate_row-eq-profile_of codec none s = refl
rehydrate_row-eq-profile_of codec (some cells) s =
    rehydrated-eq-validated (codec.validate cells.profile_json) s

current_read :
    (s : ℕ) (t : Tables)
    → t.current_snapshot ≡ some (some s)
    → get_current_snapshot_id (healthy t) ≡ returned (some s) (healthy t)
unfolding get_current_snapshot_id ◌>>=◌ execute read_guard catch
current_read s t current = rw current refl

row_read :
    (codec : Codec) (s p : ℕ) (t : Tables)
    → get_profile_in codec p (some s) (healthy t)
      ≡ profile_of codec (get p (scan s t.project_profiles)) (healthy t)
unfolding get_profile_in ◌>>=◌ execute read_guard catch
row_read codec s p t =
    rw (select-eq-get s p t.project_profiles)
      (rehydrate_row-eq-profile_of codec (get p (scan s t.project_profiles)) (healthy t))

pub get_profile-eq-profile_of :
    (codec : Codec) (s p : ℕ) (t : Tables)
    → t.current_snapshot ≡ some (some s)
    → get_profile codec p (healthy t)
      ≡ profile_of codec (get p (scan s t.project_profiles)) (healthy t)
unfolding get_profile
get_profile-eq-profile_of codec s p t current =
    bind_run get_current_snapshot_id (get_profile_in codec p) (current_read s t current)
    ∙ row_read codec s p t
