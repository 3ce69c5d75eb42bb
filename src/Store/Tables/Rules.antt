-- ===== src/Store/Tables/Rules.antt =====
-- A preorder on the tables, through a statement, a transaction and the status check of
-- src/project_knowledge_mcp/knowledge_store.py.
use gitlab_knowledege.Common.{ℕ, ◌≡◌, Bool, true, false, Option, none, some, arith, if◌then◌else◌}
use mathlib.Core.Path.{subst}
use gitlab_knowledege.Exec.{
  Error, runtime_error, Outcome, returned, raised, Exec, final, resume, ◌>>=◌, ◌>>◌,
}
use gitlab_knowledege.Exec.Relates.{IsPreorder, Relates, Relates-bind}
use gitlab_knowledege.Models.{in_progress}
use gitlab_knowledege.Store.Tables.{
  Tables, KnowledgeStore, status_of, write_back, statement, execute, rolled_back, atomically,
  transaction, begin_immediate, next_fault, later_faults, require_in_progress,
}

abbrev pub OnTables : (Tables → Tables → Type 0) → KnowledgeStore → KnowledgeStore → Type 0
OnTables R a b = R a.tables b.tables

module _ {R : Tables → Tables → Type 0} (order : IsPreorder R) where
  pub OnTables-IsPreorder : IsPreorder (OnTables R)
  OnTables-IsPreorder = record {
    reflexive = λ a. order.reflexive a.tables;
    transitive = λ h k. order.transitive h k;
  }

  module _ {A : Type 0} where
    write_back-Related :
        (a : KnowledgeStore) (o : Outcome Tables A)
        → R a.tables (final o)
        → R a.tables (final (write_back a o)).tables
    write_back-Related a (returned x t) k = k
    write_back-Related a (raised e t) k = order.reflexive a.tables

    statement-Related :
        (m : Exec Tables A) (f : Option Error) (a : KnowledgeStore)
        → R a.tables (final (m a.tables))
        → R a.tables (final (statement f m a)).tables
    unfolding statement
    statement-Related m (some e) a h = order.reflexive a.tables
    statement-Related m none a h = write_back-Related a (m a.tables) h

    -- One statement, at one state.
    pub execute-Related :
        (m : Exec Tables A) (a : KnowledgeStore)
        → R a.tables (final (m a.tables))
        → R a.tables (final (execute m a)).tables
    unfolding execute
    execute-Related m a h = opened a.is_open
      where
        opened :
            (b : Bool)
            → R a.tables
                (final (
                  if b
                  then statement
                      (next_fault a.faults)
                      m
                      (record a { faults = later_faults a.faults })
                  else raised runtime_error a)).tables
        opened true =
            statement-Related m (next_fault a.faults) (record a { faults = later_faults a.faults })
              h
        opened false = order.reflexive a.tables

    pub Relates-execute : (m : Exec Tables A) → Relates R m → Relates (OnTables R) (execute m)
    Relates-execute m h = record { at = λ a. execute-Related m a (h.at a.tables) }

    rolled_back-Related :
        (t : Tables) (o : Outcome KnowledgeStore A)
        → R t (final o).tables
        → R t (final (rolled_back t o)).tables
    rolled_back-Related t (returned x b) k = k
    rolled_back-Related t (raised e b) k = order.reflexive t

    Relates-atomically :
        (m : Exec KnowledgeStore A) → Relates (OnTables R) m → Relates (OnTables R) (atomically m)
    unfolding atomically
    Relates-atomically m h = record { at = λ a. rolled_back-Related a.tables (m a) (h.at a) }

  pub Relates-transaction :
      {A : Type 0} (m : Exec KnowledgeStore A)
      → Relates (OnTables R) m
      → Relates (OnTables R) (transaction m)
  unfolding transaction
  Relates-transaction m h =
      Relates-bind OnTables-IsPreorder (execute begin_immediate) (λ _. atomically m)
        (Relates-execute begin_immediate (record { at = order.reflexive }))
        (λ _. Relates-atomically m h)

-- What the status check has found, if it passes; it writes nothing either way.
abbrev pub Checked : ℕ → KnowledgeStore → Outcome KnowledgeStore (Unit {0}) → Type 0
Checked s a (returned _ b) =
    (b.tables ≡ a.tables) × (status_of s a.tables.snapshots ≡ some in_progress)
Checked s a (raised e b) = b.tables ≡ a.tables

pub require_in_progress_lem : (s : ℕ) (a : KnowledgeStore) → Checked s a (require_in_progress s a)
unfolding require_in_progress execute ◌>>=◌
require_in_progress_lem s a = ground arith

module _ {R : Tables → Tables → Type 0} (order : IsPreorder R) where
  Related-resume :
      {A : Type 0} (s : ℕ) (a : KnowledgeStore) (rest : Exec KnowledgeStore A)
      (o : Outcome KnowledgeStore (Unit {0}))
      → Checked s a o
      → ((b : KnowledgeStore)
          → status_of s b.tables.snapshots ≡ some in_progress
          → R b.tables (final (rest b)).tables)
      → R a.tables (final (resume o (λ _. rest))).tables
  Related-resume s a rest (returned _ b) (same, open_row) h =
      subst (λ t. R t (final (rest b)).tables) same (h b (rw same open_row))
  Related-resume s a rest (raised e b) same h = rw same (order.reflexive a.tables)

  -- Behind the status check a method may use that the snapshot is in progress.
  pub Relates-require :
      {A : Type 0} (s : ℕ) (rest : Exec KnowledgeStore A)
      → ((b : KnowledgeStore)
          → status_of s b.tables.snapshots ≡ some in_progress
          → R b.tables (final (rest b)).tables)
      → Relates (OnTables R) (require_in_progress s >> rest)
  unfolding ◌>>=◌
  Relates-require s rest h = record {
    at = λ a. Related-resume s a rest (require_in_progress s a) (require_in_progress_lem s a) h;
  }
