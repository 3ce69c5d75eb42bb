-- ===== src/Store/Tables/Frame.antt =====
-- Work on one snapshot of src/project_knowledge_mcp/knowledge_store.py, and the rest of the
-- tables.
use gitlab_knowledege.Common.{ℕ, ◌≤◌, ◌≡◌, ◌≢◌, refl, ◌∙◌, none, some, List, [], ◌∷◌, ◌++◌, arith}
use gitlab_knowledege.Exec.Relates.{IsPreorder}
use gitlab_knowledege.Models.{SnapshotStatus}
use gitlab_knowledege.Store.Rows.{scan}
use gitlab_knowledege.Store.Tables.{
  SnapshotRow, Tables, find_snapshot, next_rowid, set_status, status_of,
}

pub record SameOutside (s : ℕ) (a b : Tables) : Type 0 where
  pub current : b.current_snapshot ≡ a.current_snapshot
  pub snapshots : (u : ℕ) → s ≢ u → find_snapshot u b.snapshots ≡ find_snapshot u a.snapshots
  pub profiles : (u : ℕ) → s ≢ u → scan u b.project_profiles ≡ scan u a.project_profiles
  pub catalog : (u : ℕ) → s ≢ u → scan u b.project_catalog ≡ scan u a.project_catalog

module _ (s : ℕ) where
  pub SameOutside-refl : (a : Tables) → SameOutside s a a
  SameOutside-refl a = record {
    current = refl;
    snapshots = λ u _. refl;
    profiles = λ u _. refl;
    catalog = λ u _. refl;
  }

  pub SameOutside-trans :
      {a b c : Tables} → SameOutside s a b → SameOutside s b c → SameOutside s a c
  SameOutside-trans h k = record {
    current = k.current ∙ h.current;
    snapshots = λ u ne. k.snapshots u ne ∙ h.snapshots u ne;
    profiles = λ u ne. k.profiles u ne ∙ h.profiles u ne;
    catalog = λ u ne. k.catalog u ne ∙ h.catalog u ne;
  }

  pub SameOutside-IsPreorder : IsPreorder (SameOutside s)
  SameOutside-IsPreorder = record {
    reflexive = SameOutside-refl;
    transitive = λ h k. SameOutside-trans h k;
  }

pub find_snapshot-set_status_ne :
    (s u : ℕ) (st : SnapshotStatus) (now : ℕ) (t : List SnapshotRow)
    → s ≢ u
    → find_snapshot u (set_status s st now t) ≡ find_snapshot u t
unfolding find_snapshot set_status
find_snapshot-set_status_ne s u st now [] h = refl
find_snapshot-set_status_ne s u st now (r ∷ t) h =
    ground (arith, find_snapshot-set_status_ne s u st now t)

pub status_of-set_status_self :
    (s : ℕ) (st st' : SnapshotStatus) (now : ℕ) (t : List SnapshotRow)
    → status_of s t ≡ some st'
    → status_of s (set_status s st now t) ≡ some st
unfolding find_snapshot set_status
status_of-set_status_self s st st' now [] h = cc
status_of-set_status_self s st st' now (r ∷ t) h =
    ground (arith, status_of-set_status_self s st st' now t)

pub find_snapshot-append_ne :
    (u : ℕ) (r : SnapshotRow) (t : List SnapshotRow)
    → r.snapshot_id ≢ u
    → find_snapshot u (t ++ r ∷ []) ≡ find_snapshot u t
unfolding find_snapshot
find_snapshot-append_ne u r [] h = ground arith
find_snapshot-append_ne u r (q ∷ t) h = ground (arith, find_snapshot-append_ne u r t)

-- No row has an id from `next_rowid` up.
pub find_snapshot_fresh :
    (u : ℕ) (t : List SnapshotRow) → next_rowid t ≤ u → find_snapshot u t ≡ none
unfolding find_snapshot next_rowid
find_snapshot_fresh u [] h = refl
find_snapshot_fresh u (r ∷ t) h = ground (arith, find_snapshot_fresh u t (omega arith))

pub find_snapshot-append_self :
    (r : SnapshotRow) (t : List SnapshotRow)
    → find_snapshot r.snapshot_id t ≡ none
    → find_snapshot r.snapshot_id (t ++ r ∷ []) ≡ some r
unfolding find_snapshot
find_snapshot-append_self r [] h = ground arith
find_snapshot-append_self r (q ∷ t) h = ground (arith, find_snapshot-append_self r t)
