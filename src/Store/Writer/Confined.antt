-- ===== src/Store/Writer/Confined.antt =====
-- The rows that the writers of src/project_knowledge_mcp/knowledge_store.py touch.
use gitlab_knowledege.Common.{ℕ, String, refl, Option}
use gitlab_knowledege.Exec.{value_error, Exec, ◌>>◌}
use gitlab_knowledege.Exec.Relates.{Relates, Relates-if, Relates-raise}
use gitlab_knowledege.Models.{ProjectProfile, failed}
use gitlab_knowledege.Store.Rows.Laws.{scan-upsert_ne}
use gitlab_knowledege.Store.Tables.{Tables, execute, require_in_progress}
use gitlab_knowledege.Store.Tables.Frame.{
  SameOutside, SameOutside-IsPreorder, find_snapshot-set_status_ne,
}
use gitlab_knowledege.Store.Tables.Rules.{
  OnTables, OnTables-IsPreorder, execute-Related, Relates-require,
}
use gitlab_knowledege.Store.Writer.{
  Codec, is_empty, upsert_profile, write_profile, insert_skip, record_skip, mark_failed,
  abort_snapshot,
}

-- A statement behind the status check.
require_execute-Confined :
    {A : Type 0} (s : ℕ) (m : Exec Tables A)
    → Relates (SameOutside s) m
    → Relates (OnTables (SameOutside s)) (require_in_progress s >> execute m)
require_execute-Confined s m h =
    Relates-require (SameOutside-IsPreorder s) s (execute m)
      (λ b _. execute-Related (SameOutside-IsPreorder s) m b (h.at b.tables))

module _ (s : ℕ) where
  pub write_profile-Confined :
      (codec : Codec) (profile : ProjectProfile) (produced_at : ℕ) (commit_sha : String)
      → Relates (OnTables (SameOutside s)) (write_profile codec s profile produced_at commit_sha)
  unfolding write_profile upsert_profile
  write_profile-Confined codec profile produced_at commit_sha =
      Relates-if (OnTables-IsPreorder (SameOutside-IsPreorder s)) (is_empty commit_sha) _ _
        (Relates-raise (OnTables-IsPreorder (SameOutside-IsPreorder s)) value_error)
        (require_execute-Confined s (upsert_profile codec s profile produced_at commit_sha)
          (record {
            at = λ t. record {
              current = refl;
              snapshots = λ u _. refl;
              profiles = λ u ne. scan-upsert_ne s u _ _ t.project_profiles ne;
              catalog = λ u _. refl;
            };
          }))

  pub record_skip-Confined :
      (p : ℕ) (reason : String) (detail : Option String)
      → Relates (OnTables (SameOutside s)) (record_skip s p reason detail)
  unfolding record_skip insert_skip
  record_skip-Confined p reason detail =
      Relates-if (OnTables-IsPreorder (SameOutside-IsPreorder s)) (is_empty reason) _ _
        (Relates-raise (OnTables-IsPreorder (SameOutside-IsPreorder s)) value_error)
        (require_execute-Confined s (insert_skip s p reason detail) (record {
          at = λ t. record {
            current = refl;
            snapshots = λ u _. refl;
            profiles = λ u _. refl;
            catalog = λ u _. refl;
          };
        }))

  pub abort_snapshot-Confined :
      (now : ℕ) → Relates (OnTables (SameOutside s)) (abort_snapshot s now)
  unfolding abort_snapshot mark_failed
  abort_snapshot-Confined now = require_execute-Confined s (mark_failed s now) (record {
    at = λ t. record {
      current = refl;
      snapshots = λ u ne. find_snapshot-set_status_ne s u failed now t.snapshots ne;
      profiles = λ u _. refl;
      catalog = λ u _. refl;
    };
  })
