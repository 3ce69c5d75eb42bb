-- ===== src/Store/Invariant.antt =====
-- The well-formedness of the tables of src/project_knowledge_mcp/knowledge_store.py: what foreign
-- keys, primary keys and the pointer promise.
use mathlib.Core.Path.{subst}
use native.Mathlib.Decide.{ℕ_discrete}
use gitlab_knowledege.Common.{ℕ, ◌≡◌, ◌≢◌, refl, sym, ◌∙◌, none, some, [], arith}
use gitlab_knowledege.Exec.Relates.{IsPreorder}
use gitlab_knowledege.Models.{SnapshotStatus, completed}
use gitlab_knowledege.Store.Rows.{scan}
use gitlab_knowledege.Store.Rows.Laws.{Distinct}
use gitlab_knowledege.Store.Tables.Frame.{SameOutside}
use gitlab_knowledege.Store.Tables.{Tables, bootstrap_schema, find_snapshot, status_of}

-- The pointer's row is there and names a completed snapshot, rows belong to a snapshot, and no
-- snapshot holds two rows of one project.
pub record IsValid (t : Tables) : Type 0 where
  pub seeded : t.current_snapshot ≢ none
  pub published :
      (s : ℕ) → t.current_snapshot ≡ some (some s) → status_of s t.snapshots ≡ some completed
  pub profiles_owned : (s : ℕ) → find_snapshot s t.snapshots ≡ none → scan s t.project_profiles ≡ []
  pub catalog_owned : (s : ℕ) → find_snapshot s t.snapshots ≡ none → scan s t.project_catalog ≡ []
  pub profiles_distinct : (s : ℕ) → Distinct (scan s t.project_profiles)
  pub catalog_distinct : (s : ℕ) → Distinct (scan s t.project_catalog)

-- All that a reader looks at: the pointer, and the current snapshot's row, profiles and catalog.
pub record SameView (a b : Tables) : Type 0 where
  pub current : b.current_snapshot ≡ a.current_snapshot
  pub snapshots :
      (s : ℕ)
      → a.current_snapshot ≡ some (some s)
      → find_snapshot s b.snapshots ≡ find_snapshot s a.snapshots
  pub profiles :
      (s : ℕ)
      → a.current_snapshot ≡ some (some s)
      → scan s b.project_profiles ≡ scan s a.project_profiles
  pub catalog :
      (s : ℕ)
      → a.current_snapshot ≡ some (some s)
      → scan s b.project_catalog ≡ scan s a.project_catalog

pub SameView-refl : (a : Tables) → SameView a a
SameView-refl a = record {
  current = refl;
  snapshots = λ s _. refl;
  profiles = λ s _. refl;
  catalog = λ s _. refl;
}

pub SameView-trans : {a b c : Tables} → SameView a b → SameView b c → SameView a c
SameView-trans h k = record {
  current = k.current ∙ h.current;
  snapshots = λ s e. k.snapshots s (h.current ∙ e) ∙ h.snapshots s e;
  profiles = λ s e. k.profiles s (h.current ∙ e) ∙ h.profiles s e;
  catalog = λ s e. k.catalog s (h.current ∙ e) ∙ h.catalog s e;
}

-- From well-formed tables: they stay well formed, and readers see no difference.
abbrev pub ReaderSafe : Tables → Tables → Type 0
ReaderSafe a b = IsValid a → IsValid b × SameView a b

pub ReaderSafe-IsPreorder : IsPreorder ReaderSafe
ReaderSafe-IsPreorder = record {
  reflexive = λ t h. (h, SameView-refl t);
  transitive = λ f g h. let (v, w) = f h in let (v', w') = g v in (v', SameView-trans w w');
}

-- The tables of a new database are well formed.
pub bootstrap_schema-IsValid : IsValid bootstrap_schema
unfolding scan
bootstrap_schema-IsValid = record {
  seeded = ground arith;
  published = λ s h. cc;
  profiles_owned = λ s _. refl;
  catalog_owned = λ s _. refl;
  profiles_distinct = λ s. tt;
  catalog_distinct = λ s. tt;
}

-- A snapshot that is not completed is not the one that readers see.
pub not_current :
    (t : Tables) (s : ℕ) {st : SnapshotStatus}
    → IsValid t
    → status_of s t.snapshots ≡ some st
    → st ≢ completed
    → t.current_snapshot ≢ some (some s)
not_current t s valid h ne p = ne (cc (valid.published s p))

-- Work on the rows of a snapshot that readers do not see keeps the invariant.
pub SameOutside-IsValid :
    (s : ℕ) (a b : Tables)
    → IsValid a
    → SameOutside s a b
    → a.current_snapshot ≢ some (some s)
    → find_snapshot s b.snapshots ≢ none
    → Distinct (scan s b.project_profiles)
    → Distinct (scan s b.project_catalog)
    → IsValid b
SameOutside-IsValid s a b valid out hidden exists profiles catalog = record {
  seeded = λ h. valid.seeded (sym out.current ∙ h);
  published = λ u h. elim (ℕ_discrete s u) [
    | yes e ↦ absurd (hidden (sym out.current ∙ rw e h))
    | no ne ↦ rw (out.snapshots u ne, status_of) (valid.published u (sym out.current ∙ h))
  ];
  profiles_owned = λ u h. elim (ℕ_discrete s u) [
    | yes e ↦ absurd (exists (rw e h))
    | no ne ↦ out.profiles u ne ∙ valid.profiles_owned u (sym (out.snapshots u ne) ∙ h)
  ];
  catalog_owned = λ u h. elim (ℕ_discrete s u) [
    | yes e ↦ absurd (exists (rw e h))
    | no ne ↦ out.catalog u ne ∙ valid.catalog_owned u (sym (out.snapshots u ne) ∙ h)
  ];
  profiles_distinct = λ u. elim (ℕ_discrete s u) [
    | yes e ↦ subst (λ k. Distinct (scan k b.project_profiles)) e profiles
    | no ne ↦ rw (out.profiles u ne) (valid.profiles_distinct u)
  ];
  catalog_distinct = λ u. elim (ℕ_discrete s u) [
    | yes e ↦ subst (λ k. Distinct (scan k b.project_catalog)) e catalog
    | no ne ↦ rw (out.catalog u ne) (valid.catalog_distinct u)
  ];
}

pub SameOutside-SameView :
    (s : ℕ) (a b : Tables) → SameOutside s a b → a.current_snapshot ≢ some (some s) → SameView a b
SameOutside-SameView s a b out hidden = record {
  current = out.current;
  snapshots = λ u e. out.snapshots u (λ p. hidden (rw p e));
  profiles = λ u e. out.profiles u (λ p. hidden (rw p e));
  catalog = λ u e. out.catalog u (λ p. hidden (rw p e));
}

-- Work on the rows of a snapshot that readers do not see.
pub SameOutside-ReaderSafe :
    (s : ℕ) (a b : Tables)
    → IsValid a
    → SameOutside s a b
    → a.current_snapshot ≢ some (some s)
    → find_snapshot s b.snapshots ≢ none
    → Distinct (scan s b.project_profiles)
    → Distinct (scan s b.project_catalog)
    → IsValid b × SameView a b
SameOutside-ReaderSafe s a b valid out hidden exists profiles catalog = (
  SameOutside-IsValid s a b valid out hidden exists profiles catalog,
  SameOutside-SameView s a b out hidden,
)
