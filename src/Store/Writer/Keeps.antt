-- ===== src/Store/Writer/Keeps.antt =====
-- The writers of src/project_knowledge_mcp/knowledge_store.py and the well-formedness of the
-- tables. (`commit_snapshot` is in Commit.)
use gitlab_knowledege.Common.{ℕ, String, ◌≡◌, ◌≢◌, refl, Option, none, some, List, arith}
use gitlab_knowledege.Exec.{value_error, Outcome, returned, raised, Exec, final, ◌>>◌}
use gitlab_knowledege.Exec.Relates.{Relates, Relates-if, Relates-raise}
use gitlab_knowledege.Models.{ProjectProfile, SnapshotTrigger, SnapshotStatus, in_progress, failed}
use gitlab_knowledege.Store.Invariant.{
  IsValid, ReaderSafe, ReaderSafe-IsPreorder, not_current, SameView, SameView-refl,
  SameOutside-ReaderSafe,
}
use gitlab_knowledege.Store.Rows.{scan}
use gitlab_knowledege.Store.Rows.Laws.{put-Distinct, scan-upsert_self, scan-upsert_ne}
use gitlab_knowledege.Store.Tables.{
  SnapshotRow, Tables, KnowledgeStore, find_snapshot, status_of, set_status, execute,
  require_in_progress,
}
use gitlab_knowledege.Store.Tables.Frame.{find_snapshot-set_status_ne, status_of-set_status_self}
use gitlab_knowledege.Store.Tables.Inversion.{NoWrite}
use gitlab_knowledege.Store.Tables.Rules.{
  OnTables, OnTables-IsPreorder, execute-Related, Relates-require,
}
use gitlab_knowledege.Store.Writer.{
  Codec, TriggerArgument, is_empty, upsert_profile, write_profile, insert_skip, record_skip,
  mark_failed, abort_snapshot, begin_snapshot,
}
use gitlab_knowledege.Store.Writer.Opened.{Began}
use gitlab_knowledege.Store.Writer.Begin.{begin_snapshot-Began, begin_snapshot-NoWrite}

-- A statement on a snapshot that the status check has found in progress.
pub require_execute-ReaderSafe :
    {A : Type 0} (s : ℕ) (m : Exec Tables A)
    → ((t : Tables)
        → status_of s t.snapshots ≡ some in_progress
        → IsValid t
        → IsValid (final (m t)) × SameView t (final (m t)))
    → Relates (OnTables ReaderSafe) (require_in_progress s >> execute m)
require_execute-ReaderSafe s m h =
    Relates-require ReaderSafe-IsPreorder s (execute m)
      (λ b opened. execute-Related ReaderSafe-IsPreorder m b (h b.tables opened))

pub exists_of_status :
    (s : ℕ) (t : List SnapshotRow) {st : SnapshotStatus}
    → status_of s t ≡ some st
    → find_snapshot s t ≢ none
exists_of_status s t h = ground arith

module _ (s : ℕ) where
  -- From well-formed tables, write_profile, whether it returns or raises, keeps the tables well
  -- formed and what readers see.
  pub write_profile-ReaderSafe :
      (codec : Codec) (profile : ProjectProfile) (produced_at : ℕ) (commit_sha : String)
      → Relates (OnTables ReaderSafe) (write_profile codec s profile produced_at commit_sha)
  unfolding write_profile upsert_profile
  write_profile-ReaderSafe codec profile produced_at commit_sha =
      Relates-if (OnTables-IsPreorder ReaderSafe-IsPreorder) (is_empty commit_sha) _ _
        (Relates-raise (OnTables-IsPreorder ReaderSafe-IsPreorder) value_error)
        (require_execute-ReaderSafe s (upsert_profile codec s profile produced_at commit_sha)
          (λ t opened valid.
            SameOutside-ReaderSafe s t _ valid
              (record {
                current = refl;
                snapshots = λ u _. refl;
                profiles = λ u ne. scan-upsert_ne s u _ _ t.project_profiles ne;
                catalog = λ u _. refl;
              })
              (not_current t s valid opened (ground arith)) (exists_of_status s t.snapshots opened)
              (rw (scan-upsert_self s profile.gitlab_project_id _ t.project_profiles) (
                put-Distinct profile.gitlab_project_id _ (scan s t.project_profiles)
                  (valid.profiles_distinct s)))
              (valid.catalog_distinct s)))

  pub record_skip-ReaderSafe :
      (p : ℕ) (reason : String) (detail : Option String)
      → Relates (OnTables ReaderSafe) (record_skip s p reason detail)
  unfolding record_skip insert_skip
  record_skip-ReaderSafe p reason detail =
      Relates-if (OnTables-IsPreorder ReaderSafe-IsPreorder) (is_empty reason) _ _
        (Relates-raise (OnTables-IsPreorder ReaderSafe-IsPreorder) value_error)
        (require_execute-ReaderSafe s (insert_skip s p reason detail) (λ t opened valid.
          SameOutside-ReaderSafe s t _ valid
            (record {
              current = refl;
              snapshots = λ u _. refl;
              profiles = λ u _. refl;
              catalog = λ u _. refl;
            })
            (not_current t s valid opened (ground arith)) (exists_of_status s t.snapshots opened)
            (valid.profiles_distinct s) (valid.catalog_distinct s)))

  -- From well-formed tables, abort_snapshot, whether it returns or raises, keeps the tables well
  -- formed and what readers see.
  pub abort_snapshot-ReaderSafe : (now : ℕ) → Relates (OnTables ReaderSafe) (abort_snapshot s now)
  unfolding abort_snapshot mark_failed
  abort_snapshot-ReaderSafe now =
      require_execute-ReaderSafe s (mark_failed s now) (λ t opened valid.
        SameOutside-ReaderSafe s t _ valid
          (record {
            current = refl;
            snapshots = λ u ne. find_snapshot-set_status_ne s u failed now t.snapshots ne;
            profiles = λ u _. refl;
            catalog = λ u _. refl;
          })
          (not_current t s valid opened (ground arith))
          (exists_of_status s (set_status s failed now t.snapshots)
            (status_of-set_status_self s failed in_progress now t.snapshots opened))
          (valid.profiles_distinct s) (valid.catalog_distinct s))

absent_not_current :
    (t : Tables) (s : ℕ)
    → IsValid t
    → find_snapshot s t.snapshots ≡ none
    → t.current_snapshot ≢ some (some s)
absent_not_current t s valid h p = ground (arith, valid.published s p)

Began-ReaderSafe :
    (t : SnapshotTrigger) (parent : Option ℕ) (now new : ℕ) (a b : Tables)
    → IsValid a
    → Began t parent now new a b
    → IsValid b × SameView a b
Began-ReaderSafe t none now new a b valid began =
    SameOutside-ReaderSafe new a b valid began.outside (absent_not_current a new valid began.fresh)
      (λ h. absurd (ground arith)) (rw ((began.no_parent refl).0) tt)
      (rw ((began.no_parent refl).1) tt)
Began-ReaderSafe t (some p) now new a b valid began =
    SameOutside-ReaderSafe new a b valid began.outside (absent_not_current a new valid began.fresh)
      (λ h. absurd (ground arith)) (rw ((began.copied p refl).0) (valid.profiles_distinct p))
      (rw ((began.copied p refl).1) (valid.catalog_distinct p))

after_begin :
    (argument : TriggerArgument) (parent : Option ℕ) (now : ℕ) (a : KnowledgeStore)
    (o : Outcome KnowledgeStore ℕ)
    → begin_snapshot argument parent now a ≡ o
    → NoWrite a.tables o
    → ReaderSafe a.tables (final o).tables
after_begin argument parent now a (returned new b) h _ valid =
    let (t, began) = begin_snapshot-Began argument parent now new a b valid h in
    Began-ReaderSafe t parent now new a.tables b.tables valid began
after_begin argument parent now a (raised e b) h same valid =
    rw same (valid, SameView-refl a.tables)

-- From well-formed tables, begin_snapshot, whether it returns or raises, keeps the tables well
-- formed and what readers see.
pub begin_snapshot-ReaderSafe :
    (argument : TriggerArgument) (parent : Option ℕ) (now : ℕ)
    → Relates (OnTables ReaderSafe) (begin_snapshot argument parent now)
begin_snapshot-ReaderSafe argument parent now = record {
  at = λ a.
      after_begin argument parent now a (begin_snapshot argument parent now a) refl
        (begin_snapshot-NoWrite argument parent now a);
}
