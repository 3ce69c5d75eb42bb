-- ===== src/Jobs/Rules.antt =====
-- Relations between worlds, through what the procedures are made of.
use gitlab_knowledege.Common.{◌≡◌, refl, ◌∙◌}
use gitlab_knowledege.Exec.{Outcome, returned, raised, Exec, final}
use gitlab_knowledege.Exec.Relates.{IsPreorder, Relates}
use gitlab_knowledege.Store.Tables.{Tables, KnowledgeStore}
use gitlab_knowledege.Store.Tables.Rules.{OnTables}
use gitlab_knowledege.Coordinator.{Coordinator}
use gitlab_knowledege.Jobs.{
  Wiring, World, with_store, on_store, with_gate, on_gate, with_env, on_env, read_clock,
}

module _ {E : Type 0} (R : Tables → Tables → Type 0) where
  abbrev pub InStore : World E → World E → Type 0
  InStore a b = R a.store.tables b.store.tables

module _ {E : Type 0} {R : Tables → Tables → Type 0} (order : IsPreorder R) where
  pub InStore-IsPreorder : IsPreorder (InStore {E = E} R)
  InStore-IsPreorder = record {
    reflexive = λ a. order.reflexive a.store.tables;
    transitive = λ h k. order.transitive h k;
  }

  module _ {A : Type 0} where
    stored :
        (w : World E) (o : Outcome KnowledgeStore A)
        → R w.store.tables (final o).tables
        → R w.store.tables (final (with_store w o)).store.tables
    stored w (returned a s) h = h
    stored w (raised e s) h = h

    pub Relates-on_store :
        (m : Exec KnowledgeStore A)
        → Relates (OnTables R) m
        → Relates (InStore {E = E} R) (on_store m)
    unfolding on_store
    Relates-on_store m h = record { at = λ w. stored w (m w.store) (h.at w.store) }

    gated :
        (w : World E) (o : Outcome Coordinator A)
        → R w.store.tables (final (with_gate w o)).store.tables
    gated w (returned a c) = order.reflexive w.store.tables
    gated w (raised e c) = order.reflexive w.store.tables

    pub Relates-on_gate : (m : Exec Coordinator A) → Relates (InStore {E = E} R) (on_gate m)
    unfolding on_gate
    Relates-on_gate m = record { at = λ w. gated w (m w.coordinator) }

    reached : (w : World E) (o : Outcome E A) → R w.store.tables (final (with_env w o)).store.tables
    reached w (returned a x) = order.reflexive w.store.tables
    reached w (raised e x) = order.reflexive w.store.tables

    pub Relates-on_env : (m : Exec E A) → Relates (InStore R) (on_env m)
    unfolding on_env
    Relates-on_env m = record { at = λ w. reached w (m w.env) }

  pub Relates-read_clock : (k : Wiring E) → Relates (InStore R) (read_clock k)
  unfolding read_clock
  Relates-read_clock k = record { at = λ w. order.reflexive w.store.tables }

-- The gate is the same.
abbrev pub SameGate : {E : Type 0} → World E → World E → Type 0
SameGate a b = b.coordinator ≡ a.coordinator

module _ {E : Type 0} where
  pub SameGate-IsPreorder : IsPreorder (SameGate {E = E})
  SameGate-IsPreorder = record { reflexive = λ a. refl; transitive = λ h k. k ∙ h }

  module _ {A : Type 0} where
    stored-SameGate :
        (w : World E) (o : Outcome KnowledgeStore A) → SameGate w (final (with_store w o))
    stored-SameGate w (returned a s) = refl
    stored-SameGate w (raised e s) = refl

    pub SameGate-on_store : (m : Exec KnowledgeStore A) → Relates (SameGate {E = E}) (on_store m)
    unfolding on_store
    SameGate-on_store m = record { at = λ w. stored-SameGate w (m w.store) }

    reached-SameGate : (w : World E) (o : Outcome E A) → SameGate w (final (with_env w o))
    reached-SameGate w (returned a x) = refl
    reached-SameGate w (raised e x) = refl

    pub SameGate-on_env : (m : Exec E A) → Relates SameGate (on_env m)
    unfolding on_env
    SameGate-on_env m = record { at = λ w. reached-SameGate w (m w.env) }

  pub SameGate-read_clock : (k : Wiring E) → Relates SameGate (read_clock k)
  unfolding read_clock
  SameGate-read_clock k = record { at = λ w. refl }
