-- ===== src/Store/Writer/Opened.antt =====
-- The statements of `begin_snapshot` of src/project_knowledge_mcp/knowledge_store.py, and the tables
-- that they leave.
use gitlab_knowledege.Common.{
  ℕ, String, ◌≡◌, ◌≢◌, refl, Option, none, some, List, [], ◌∷◌, ◌++◌, arith, Option-cases, inl, inr,
}
use mathlib.Core.Path.{subst}
use gitlab_knowledege.Exec.{returned}
use gitlab_knowledege.Exec.Inversion.{bind-eq-returned}
use gitlab_knowledege.Models.{SnapshotTrigger, single_project}
use gitlab_knowledege.Store.Invariant.{IsValid}
use gitlab_knowledege.Store.Rows.{Row, scan, insert_select}
use gitlab_knowledege.Store.Rows.Laws.{Distinct}
use gitlab_knowledege.Store.Rows.Copy.{insert_select_total}
use gitlab_knowledege.Store.Tables.{
  ProfileCells, Tables, KnowledgeStore, find_snapshot, next_rowid, execute,
}
use gitlab_knowledege.Store.Tables.Frame.{
  SameOutside, find_snapshot_fresh, find_snapshot-append_ne, find_snapshot-append_self,
}
use gitlab_knowledege.Store.Tables.Inversion.{execute-eq-returned}
use gitlab_knowledege.Store.Writer.{
  new_snapshot, insert_snapshot, copy_profiles, copy_catalog, copy_parent,
}

-- `b` is `a` with one more snapshot `new`, which is in progress, and whose rows are copies of the
-- parent's if there is a parent.
pub record Began (trigger : SnapshotTrigger) (parent : Option ℕ) (now new : ℕ) (a b : Tables)
    : Type 0 where
  pub fresh : find_snapshot new a.snapshots ≡ none
  pub opened :
      find_snapshot new b.snapshots
      ≡ some (record (new_snapshot trigger parent now a) { snapshot_id = new })
  pub outside : SameOutside new a b
  pub no_parent :
      parent ≡ none → (scan new b.project_profiles ≡ []) × (scan new b.project_catalog ≡ [])
  pub copied :
      (p : ℕ)
      → parent ≡ some p
      → (scan new b.project_profiles ≡ scan p a.project_profiles)
        × (scan new b.project_catalog ≡ scan p a.project_catalog)

pub insert_snapshot-eq-returned :
    (trigger : SnapshotTrigger) (parent : Option ℕ) (now : ℕ) (t : Tables) {new : ℕ} {u : Tables}
    → insert_snapshot trigger parent now t ≡ returned new u
    → (new ≡ next_rowid t.snapshots)
      × (u ≡ record t { snapshots = t.snapshots ++ new_snapshot trigger parent now t ∷ [] })
unfolding insert_snapshot
insert_snapshot-eq-returned trigger parent now t h = ground arith

-- The inserted row is found under its id, and no other id is affected.
pub insert_snapshot-Began :
    (trigger : SnapshotTrigger) (parent : Option ℕ) (now : ℕ) (t : Tables)
    → IsValid t
    → parent ≡ none
    → Began trigger parent now
        (next_rowid t.snapshots)
        t
        (record t { snapshots = t.snapshots ++ new_snapshot trigger parent now t ∷ [] })
insert_snapshot-Began trigger parent now t valid alone =
    let new = next_rowid t.snapshots in
    let absent : find_snapshot new t.snapshots ≡ none =
      find_snapshot_fresh new t.snapshots (omega arith) in
    record {
      fresh = absent;
      opened = find_snapshot-append_self (new_snapshot trigger parent now t) t.snapshots absent;
      outside = record {
        current = refl;
        snapshots =
            λ u ne. find_snapshot-append_ne u (new_snapshot trigger parent now t) t.snapshots ne;
        profiles = λ u _. refl;
        catalog = λ u _. refl;
      };
      no_parent = λ _. (valid.profiles_owned new absent, valid.catalog_owned new absent);
      copied = λ p e. cc;
    }

copy_profiles-eq-returned :
    (new p : ℕ) (t : Tables) {u : Tables}
    → copy_profiles new p t ≡ returned tt u
    → (rows : List (Row ProfileCells)) × (insert_select new p t.project_profiles ≡ some rows)
      × (u ≡ record t { project_profiles = rows })
unfolding copy_profiles
copy_profiles-eq-returned new p t {u} =
    elim (Option-cases (insert_select new p t.project_profiles)) [
      | inl e ↦ λ h. absurd (ground arith)
      | inr (rows, e) ↦ λ h. (rows, e, ground arith)
    ]

copy_catalog-eq-returned :
    (new p : ℕ) (t : Tables) {u : Tables}
    → copy_catalog new p t ≡ returned tt u
    → (rows : List (Row String)) × (insert_select new p t.project_catalog ≡ some rows)
      × (u ≡ record t { project_catalog = rows })
unfolding copy_catalog
copy_catalog-eq-returned new p t {u} = elim (Option-cases (insert_select new p t.project_catalog)) [
  | inl e ↦ λ h. absurd (ground arith)
  | inr (rows, e) ↦ λ h. (rows, e, ground arith)
]

insert_select-eq-some {ℓ} :
    {V : Type ℓ} (new p : ℕ) (t : List (Row V)) {rows : List (Row V)}
    → Distinct (scan p t)
    → scan new t ≡ []
    → insert_select new p t ≡ some rows
    → (scan new rows ≡ scan p t) × ((s : ℕ) → new ≢ s → scan s rows ≡ scan s t)
insert_select-eq-some new p t {rows} d empty h =
    let (rows', done, mine, others) = insert_select_total new p t d empty in
    let e : rows' ≡ rows = cc in (rw (← e) mine, λ s ne. rw (← e) (others s ne))

pub copy_parent-eq-returned :
    (p new : ℕ) (a b : KnowledgeStore)
    → copy_parent single_project (some p) new a ≡ returned tt b
    → (rows : List (Row ProfileCells)) × (rows' : List (Row String)) × (insert_select new p
          a.tables.project_profiles
        ≡ some rows)
      × (insert_select new p a.tables.project_catalog ≡ some rows')
      × (b.tables ≡ record a.tables { project_profiles = rows; project_catalog = rows' })
unfolding copy_parent
copy_parent-eq-returned p new a b h =
    let (_, c, first, second) = bind-eq-returned (execute (copy_profiles new p)) _ a tt b h in
    let (rows, e, t₁) =
      copy_profiles-eq-returned new p a.tables
        (execute-eq-returned (copy_profiles new p) a first) in
    let (rows', e', t₂) =
      copy_catalog-eq-returned new p c.tables (execute-eq-returned (copy_catalog new p) c second) in
    (rows, rows', e, cc, cc)

-- The rows of the parent, copied into the inserted snapshot.
pub copied-Began :
    (p now : ℕ) (a : Tables) (rows : List (Row ProfileCells)) (rows' : List (Row String))
    → IsValid a
    → insert_select (next_rowid a.snapshots) p a.project_profiles ≡ some rows
    → insert_select (next_rowid a.snapshots) p a.project_catalog ≡ some rows'
    → Began single_project (some p) now (next_rowid a.snapshots) a (record a {
      snapshots = a.snapshots ++ new_snapshot single_project (some p) now a ∷ [];
      project_profiles = rows;
      project_catalog = rows';
    })
copied-Began p now a rows rows' valid e e' =
    let new = next_rowid a.snapshots in
    let absent : find_snapshot new a.snapshots ≡ none =
      find_snapshot_fresh new a.snapshots (omega arith) in
    let r = new_snapshot single_project (some p) now a in
    let (mine, others) =
      insert_select-eq-some new p a.project_profiles (valid.profiles_distinct p)
        (valid.profiles_owned new absent) e in
    let (mine', others') =
      insert_select-eq-some new p a.project_catalog (valid.catalog_distinct p)
        (valid.catalog_owned new absent) e' in
    record {
      fresh = absent;
      opened = find_snapshot-append_self r a.snapshots absent;
      outside = record {
        current = refl;
        snapshots = λ u ne. find_snapshot-append_ne u r a.snapshots ne;
        profiles = others;
        catalog = others';
      };
      no_parent = λ h. absurd (ground arith);
      copied = λ q h.
          let same : p ≡ q = ground arith in
          subst
            (λ k.
              (scan new rows ≡ scan k a.project_profiles)
              × (scan new rows' ≡ scan k a.project_catalog))
            same (mine, mine');
    }
