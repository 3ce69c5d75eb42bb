-- ===== src/Store/Tables.antt =====
-- The schema of src/project_knowledge_mcp/knowledge_store.py, the connection and its transactions.
-- What SQLite decides is an argument: `faults` says of each statement to come whether it fails.
pub mod Rules
pub mod Frame
pub mod Inversion
use Prim.Native.Nat.{max}
use gitlab_knowledege.Common.{
  ℕ, suc, String, Bool, Option, none, some, List, [], ◌∷◌, ◌==◌, if◌then◌else◌,
}
use gitlab_knowledege.Exec.{
  Error, value_error, runtime_error, Outcome, returned, raised, Exec, pure, raise, ◌>>=◌, ◌>>◌,
}
use gitlab_knowledege.Models.{SnapshotStatus, in_progress, SnapshotTrigger}
use gitlab_knowledege.Store.Rows.{Row}

pub record SnapshotRow : Type 0 where
  pub snapshot_id : ℕ
  pub started_at : ℕ
  pub completed_at : Option ℕ
  pub status : SnapshotStatus
  pub trigger : SnapshotTrigger
  pub parent_snapshot_id : Option ℕ

-- The columns of project_profiles beside its key.
pub record ProfileCells : Type 0 where
  pub full_path : String
  pub analysis_branch : String
  pub analysis_branch_sha : Option String
  pub produced_at : ℕ
  pub profile_json : String

pub record SkipRow : Type 0 where
  pub snapshot_id : ℕ
  pub gitlab_project_id : ℕ
  pub reason : String
  pub detail : Option String

-- `current_snapshot` is the one row of that table: `none` if the row is missing, `some none` for NULL.
pub record Tables : Type 0 where
  pub snapshots : List SnapshotRow
  pub project_profiles : List (Row ProfileCells)
  pub ingestion_skips : List SkipRow
  pub current_snapshot : Option (Option ℕ)
  pub project_catalog : List (Row String)

-- The tables that `_bootstrap_schema` leaves in a new database.
abbrev pub bootstrap_schema : Tables
bootstrap_schema = record {
  snapshots = [];
  project_profiles = [];
  ingestion_skips = [];
  current_snapshot = some none;
  project_catalog = [];
}

pub record KnowledgeStore : Type 0 where
  pub tables : Tables
  pub is_open : Bool
  pub faults : List (Option Error)

unfoldable pub find_snapshot : ℕ → List SnapshotRow → Option SnapshotRow
find_snapshot s [] = none
find_snapshot s (r ∷ t) = if r.snapshot_id == s then some r else find_snapshot s t

-- SELECT status FROM snapshots WHERE snapshot_id = s
abbrev pub status_of : ℕ → List SnapshotRow → Option SnapshotStatus
status_of s t = elim (find_snapshot s t) [ none ↦ none | some r ↦ some r.status ]

-- The rowid that SQLite gives to an INTEGER PRIMARY KEY: one more than the largest.
unfoldable pub next_rowid : List SnapshotRow → ℕ
next_rowid [] = 1
next_rowid (r ∷ t) = max (suc r.snapshot_id) (next_rowid t)

-- UPDATE snapshots SET status = st, completed_at = now WHERE snapshot_id = s
unfoldable pub set_status : ℕ → SnapshotStatus → ℕ → List SnapshotRow → List SnapshotRow
set_status s st now [] = []
set_status s st now (r ∷ t) =
    (if r.snapshot_id == s then record r { status = st; completed_at = some now } else r)
    ∷ set_status s st now t

unfoldable pub next_fault : List (Option Error) → Option Error
next_fault [] = none
next_fault (f ∷ fs) = f

unfoldable pub later_faults : List (Option Error) → List (Option Error)
later_faults [] = []
later_faults (f ∷ fs) = fs

abbrev pub begin_immediate : Exec Tables (Unit {0})
begin_immediate t = returned tt t

module _ {A : Type 0} where
  -- A statement that fails writes nothing.
  abbrev pub write_back : KnowledgeStore → Outcome Tables A → Outcome KnowledgeStore A
  write_back s (returned a t) = returned a (record s { tables = t })
  write_back s (raised e t) = raised e s

  unfoldable pub statement : Option Error → Exec Tables A → Exec KnowledgeStore A
  statement (some e) m s = raised e s
  statement none m s = write_back s (m s.tables)

  -- self.connection.execute(...): the accessor refuses a closed store.
  unfoldable pub execute : Exec Tables A → Exec KnowledgeStore A
  unfolding statement next_fault later_faults
  execute m s =
      if s.is_open
      then statement (next_fault s.faults) m (record s { faults = later_faults s.faults })
      else raised runtime_error s

  abbrev pub rolled_back : Tables → Outcome KnowledgeStore A → Outcome KnowledgeStore A
  rolled_back t (returned a s) = returned a s
  rolled_back t (raised e s) = raised e (record s { tables = t })

  -- try: m  except: ROLLBACK; raise  else: COMMIT
  unfoldable pub atomically : Exec KnowledgeStore A → Exec KnowledgeStore A
  atomically m s = rolled_back s.tables (m s)

-- BEGIN IMMEDIATE stands before the `try`.
unfoldable pub transaction : {A : Type 0} → Exec KnowledgeStore A → Exec KnowledgeStore A
transaction m = do execute begin_immediate; atomically m

-- The test of `_require_in_progress` on the status that it has read.
unfoldable pub expect_in_progress : Option SnapshotStatus → Exec KnowledgeStore (Unit {0})
expect_in_progress (some in_progress) = pure tt
expect_in_progress _ = raise value_error

unfoldable pub require_in_progress : ℕ → Exec KnowledgeStore (Unit {0})
unfolding expect_in_progress
require_in_progress s = do
  status ← execute (λ t. returned (status_of s t.snapshots) t)
  expect_in_progress status
