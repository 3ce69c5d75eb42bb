-- ===== src/Store/Tables/Inversion.antt =====
-- Statements and transactions of src/project_knowledge_mcp/knowledge_store.py that returned,
-- and those that raised.
use gitlab_knowledege.Common.{
  ℕ, ◌≡◌, refl, Bool, true, false, Option, none, some, arith, if◌then◌else◌,
}
use gitlab_knowledege.Exec.{Error, runtime_error, Outcome, returned, raised, Exec, resume, ◌>>=◌}
use gitlab_knowledege.Exec.Inversion.{bind-eq-returned}
use gitlab_knowledege.Models.{in_progress}
use gitlab_knowledege.Store.Tables.{
  Tables, KnowledgeStore, status_of, write_back, statement, execute, rolled_back, atomically,
  transaction, begin_immediate, next_fault, later_faults, require_in_progress,
}
use gitlab_knowledege.Store.Tables.Rules.{Checked, require_in_progress_lem}

module _ {A : Type 0} where
  write_back-eq-returned :
      (a : KnowledgeStore) (o : Outcome Tables A) {x : A} {b : KnowledgeStore}
      → write_back a o ≡ returned x b
      → o ≡ returned x b.tables
  write_back-eq-returned a (returned y t) h = ground arith
  write_back-eq-returned a (raised e t) h = cc

  statement-eq-returned :
      (m : Exec Tables A) (f : Option Error) (a : KnowledgeStore) {x : A} {b : KnowledgeStore}
      → statement f m a ≡ returned x b
      → m a.tables ≡ returned x b.tables
  unfolding statement
  statement-eq-returned m (some e) a h = cc
  statement-eq-returned m none a h = write_back-eq-returned a (m a.tables) h

  pub execute-eq-returned :
      (m : Exec Tables A) (a : KnowledgeStore) {x : A} {b : KnowledgeStore}
      → execute m a ≡ returned x b
      → m a.tables ≡ returned x b.tables
  unfolding execute
  execute-eq-returned m a {x} {b} = opened a.is_open
    where
      opened :
          (c : Bool)
          → (if c
              then statement (next_fault a.faults) m (record a { faults = later_faults a.faults })
              else raised runtime_error a)
            ≡ returned x b
          → m a.tables ≡ returned x b.tables
      opened true h =
          statement-eq-returned m (next_fault a.faults)
            (record a { faults = later_faults a.faults }) h
      opened false h = cc

  -- An outcome that raised has left the tables as they were.
  abbrev pub NoWrite : Tables → Outcome KnowledgeStore A → Type 0
  NoWrite t (returned x b) = Unit
  NoWrite t (raised e b) = b.tables ≡ t

  write_back-NoWrite :
      (a : KnowledgeStore) (o : Outcome Tables A) → NoWrite a.tables (write_back a o)
  write_back-NoWrite a (returned y t) = tt
  write_back-NoWrite a (raised e t) = refl

  statement-NoWrite :
      (m : Exec Tables A) (f : Option Error) (a : KnowledgeStore)
      → NoWrite a.tables (statement f m a)
  unfolding statement
  statement-NoWrite m (some e) a = refl
  statement-NoWrite m none a = write_back-NoWrite a (m a.tables)

  pub execute-NoWrite : (m : Exec Tables A) (a : KnowledgeStore) → NoWrite a.tables (execute m a)
  unfolding execute
  execute-NoWrite m a = opened a.is_open
    where
      opened :
          (c : Bool)
          → NoWrite a.tables (
              if c
              then statement (next_fault a.faults) m (record a { faults = later_faults a.faults })
              else raised runtime_error a)
      opened true =
          statement-NoWrite m (next_fault a.faults) (record a { faults = later_faults a.faults })
      opened false = refl

  rolled_back-eq-returned :
      (t : Tables) (o : Outcome KnowledgeStore A) {x : A} {b : KnowledgeStore}
      → rolled_back t o ≡ returned x b
      → o ≡ returned x b
  rolled_back-eq-returned t (returned y c) h = h
  rolled_back-eq-returned t (raised e c) h = cc

  rolled_back-NoWrite : (t : Tables) (o : Outcome KnowledgeStore A) → NoWrite t (rolled_back t o)
  rolled_back-NoWrite t (returned y c) = tt
  rolled_back-NoWrite t (raised e c) = refl

-- BEGIN IMMEDIATE has passed, and the body has run from the same tables.
pub transaction-eq-returned :
    {A : Type 0} (m : Exec KnowledgeStore A) (a : KnowledgeStore) (x : A) (b : KnowledgeStore)
    → transaction m a ≡ returned x b
    → (a' : KnowledgeStore) × (a'.tables ≡ a.tables) × (m a' ≡ returned x b)
unfolding transaction atomically
transaction-eq-returned m a x b h =
    let (_, a', begun, run) = bind-eq-returned (execute begin_immediate) _ a x b h in
    (a', cc (execute-eq-returned begin_immediate a begun), rolled_back-eq-returned _ (m a') run)

resume-NoWrite :
    {A B : Type 0} (t : Tables) (o : Outcome KnowledgeStore A) (f : A → Exec KnowledgeStore B)
    → NoWrite t o
    → ((x : A) (b : KnowledgeStore) → o ≡ returned x b → NoWrite t (f x b))
    → NoWrite t (resume o f)
resume-NoWrite t (returned x b) f h k = k x b refl
resume-NoWrite t (raised e b) f h k = h

-- A step that writes nothing when it raises, after a step that writes nothing at all.
pub bind-NoWrite :
    {A B : Type 0} (m : Exec KnowledgeStore A) (f : A → Exec KnowledgeStore B) (a : KnowledgeStore)
    → NoWrite a.tables (m a)
    → ((x : A) (b : KnowledgeStore) → m a ≡ returned x b → NoWrite a.tables (f x b))
    → NoWrite a.tables ((m >>= f) a)
unfolding ◌>>=◌
bind-NoWrite m f a h k = resume-NoWrite a.tables (m a) f h k

-- BEGIN ... COMMIT is all or nothing.
pub transaction-NoWrite :
    {A : Type 0} (m : Exec KnowledgeStore A) (a : KnowledgeStore)
    → NoWrite a.tables (transaction m a)
unfolding transaction atomically
transaction-NoWrite m a =
    bind-NoWrite (execute begin_immediate) (λ _. atomically m) a (execute-NoWrite begin_immediate a)
      (λ x b begun.
        let same : b.tables ≡ a.tables = cc (execute-eq-returned begin_immediate a begun) in
        rw (← same) (rolled_back-NoWrite b.tables (m b)))

Checked-eq-returned :
    (s : ℕ) (a : KnowledgeStore) (o : Outcome KnowledgeStore (Unit {0})) (b : KnowledgeStore)
    → Checked s a o
    → o ≡ returned tt b
    → (b.tables ≡ a.tables) × (status_of s a.tables.snapshots ≡ some in_progress)
Checked-eq-returned s a (returned _ c) b h e = (cc h.0, h.1)
Checked-eq-returned s a (raised d c) b h e = cc

-- The status check passes on a snapshot in progress only, and writes nothing.
pub require-eq-returned :
    (s : ℕ) (a b : KnowledgeStore)
    → require_in_progress s a ≡ returned tt b
    → (b.tables ≡ a.tables) × (status_of s a.tables.snapshots ≡ some in_progress)
require-eq-returned s a b h =
    Checked-eq-returned s a (require_in_progress s a) b (require_in_progress_lem s a) h

Checked-NoWrite :
    (s : ℕ) (a : KnowledgeStore) (o : Outcome KnowledgeStore (Unit {0}))
    → Checked s a o
    → NoWrite a.tables o
Checked-NoWrite s a (returned _ c) h = tt
Checked-NoWrite s a (raised d c) h = h

pub require-NoWrite : (s : ℕ) (a : KnowledgeStore) → NoWrite a.tables (require_in_progress s a)
require-NoWrite s a = Checked-NoWrite s a (require_in_progress s a) (require_in_progress_lem s a)
