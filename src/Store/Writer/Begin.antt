-- ===== src/Store/Writer/Begin.antt =====
-- `begin_snapshot` of src/project_knowledge_mcp/knowledge_store.py.
use gitlab_knowledege.Common.{ℕ, ◌≡◌, refl, sym, ap, ◌∙◌, Option, none, some, arith, ◌⊎◌, inl, inr}
use mathlib.Core.Path.{subst, subst₂}
use gitlab_knowledege.Exec.{returned, pure, raise}
use gitlab_knowledege.Exec.Inversion.{bind_returned}
use gitlab_knowledege.Models.{SnapshotTrigger, single_project}
use gitlab_knowledege.Store.Invariant.{IsValid}
use gitlab_knowledege.Store.Tables.{Tables, KnowledgeStore, execute}
use gitlab_knowledege.Store.Tables.Inversion.{
  execute-eq-returned, transaction-eq-returned, NoWrite, bind-NoWrite, transaction-NoWrite,
}
use gitlab_knowledege.Store.Writer.{
  TriggerArgument, coerce_trigger, check_parent, insert_snapshot, copy_parent, insert_and_copy,
  begin_snapshot,
}
use gitlab_knowledege.Store.Writer.Opened.{
  Began, insert_snapshot-eq-returned, insert_snapshot-Began, copy_parent-eq-returned, copied-Began,
}

coerce_trigger-eq-returned :
    (argument : TriggerArgument) (a b : KnowledgeStore) (t : SnapshotTrigger)
    → coerce_trigger argument a ≡ returned t b
    → b ≡ a
unfolding coerce_trigger pure raise
coerce_trigger-eq-returned (TriggerArgument.member u) a b t h = ground arith
coerce_trigger-eq-returned (TriggerArgument.spelled s) a b t h = ground arith

check_parent-eq-returned :
    (t : SnapshotTrigger) (parent : Option ℕ) (a b : KnowledgeStore)
    → check_parent t parent a ≡ returned tt b
    → (b ≡ a) × ((parent ≡ none) ⊎ (t ≡ single_project))
unfolding check_parent pure raise
check_parent-eq-returned single_project none a b h = cc
check_parent-eq-returned single_project (some p) a b h = (ground arith, inr refl)
check_parent-eq-returned t none a b h = (ground arith, inl refl)
check_parent-eq-returned t (some p) a b h = cc

copy_parent-none :
    (t : SnapshotTrigger) (new : ℕ) (a : KnowledgeStore) → copy_parent t none new a ≡ returned tt a
unfolding copy_parent pure
copy_parent-none single_project new a = refl
copy_parent-none t new a = refl

-- The three steps inside the transaction.
inserted_copied-Began :
    (t : SnapshotTrigger) (parent : Option ℕ) (now new : ℕ) (a b c : KnowledgeStore)
    → IsValid a.tables
    → (parent ≡ none) ⊎ (t ≡ single_project)
    → insert_snapshot t parent now a.tables ≡ returned new b.tables
    → copy_parent t parent new b ≡ returned tt c
    → Began t parent now new a.tables c.tables
inserted_copied-Began t none now new a b c valid legal inserted copied =
    let (id, done) = insert_snapshot-eq-returned t none now a.tables inserted in
    let same : c.tables ≡ b.tables = cc (copy_parent-none t new b) in
    let all = same ∙ done in
    subst₂ (λ n k. Began t none now n a.tables k) (sym id) (sym all)
      (insert_snapshot-Began t none now a.tables valid refl)
inserted_copied-Began single_project (some p) now new a b c valid legal inserted copied =
    let (id, done) = insert_snapshot-eq-returned single_project (some p) now a.tables inserted in
    let (rows, rows', e, e', last) = copy_parent-eq-returned p new b c copied in
    let all =
      last
      ∙ ap {A = Tables} (λ t. record t { project_profiles = rows; project_catalog = rows' }) done in
    subst₂ (λ n k. Began single_project (some p) now n a.tables k) (sym id) (sym all)
      (copied-Began p now a.tables rows rows' valid (cc) (cc))
inserted_copied-Began t (some p) now new a b c valid (inl none_given) inserted copied =
    absurd (ground arith)
inserted_copied-Began t (some p) now new a b c valid (inr is_single) inserted copied =
    absurd (ground arith)

insert_and_copy-Began :
    (t : SnapshotTrigger) (parent : Option ℕ) (now new : ℕ) (a b : KnowledgeStore)
    → IsValid a.tables
    → (parent ≡ none) ⊎ (t ≡ single_project)
    → insert_and_copy t parent now a ≡ returned new b
    → Began t parent now new a.tables b.tables
unfolding insert_and_copy pure
insert_and_copy-Began t parent now new a b valid legal h =
    bind_returned (execute (insert_snapshot t parent now)) _ a new b h (λ new' a' inserted h'.
      bind_returned (copy_parent t parent new') _ a' new b h' (λ _ c copied last.
        let id : new' ≡ new = ground arith in
        let same : c ≡ b = ground arith in
        inserted_copied-Began t parent now new a a' b valid legal
          (cc (execute-eq-returned (insert_snapshot t parent now) a inserted)) (cc)))

-- A begin_snapshot that returns, on well-formed tables, has added one snapshot in progress under
-- an id that was not there, with copies of the parent's profile and catalog rows if there is a
-- parent and none otherwise, and has changed nothing of the other snapshots or the pointer.
pub begin_snapshot-Began :
    (argument : TriggerArgument) (parent : Option ℕ) (now new : ℕ) (a b : KnowledgeStore)
    → IsValid a.tables
    → begin_snapshot argument parent now a ≡ returned new b
    → (t : SnapshotTrigger) × Began t parent now new a.tables b.tables
unfolding begin_snapshot
begin_snapshot-Began argument parent now new a b valid h =
    bind_returned (coerce_trigger argument) _ a new b h (λ t a₁ coerced h₁.
      bind_returned (check_parent t parent) _ a₁ new b h₁ (λ _ a₂ checked h₂.
        let (same, legal) = check_parent-eq-returned t parent a₁ a₂ checked in
        let (a₃, begun, h₃) = transaction-eq-returned (insert_and_copy t parent now) a₂ new b h₂ in
        let start : a₃.tables ≡ a.tables =
          cc (coerce_trigger-eq-returned argument a a₁ t coerced) in
        (
          t,
          subst (λ k. Began t parent now new k b.tables) start
              (insert_and_copy-Began t parent now new a₃ b (rw start valid) legal h₃),
        )))

coerce_trigger-NoWrite :
    (argument : TriggerArgument) (a : KnowledgeStore) → NoWrite a.tables (coerce_trigger argument a)
unfolding coerce_trigger pure raise
coerce_trigger-NoWrite (TriggerArgument.member u) a = tt
coerce_trigger-NoWrite (TriggerArgument.spelled s) a = ground arith

check_parent-NoWrite :
    (t : SnapshotTrigger) (parent : Option ℕ) (a : KnowledgeStore)
    → NoWrite a.tables (check_parent t parent a)
unfolding check_parent pure raise
check_parent-NoWrite single_project none a = refl
check_parent-NoWrite single_project (some p) a = tt
check_parent-NoWrite t none a = tt
check_parent-NoWrite t (some p) a = refl

-- A begin_snapshot that raises has left the tables as they were.
pub begin_snapshot-NoWrite :
    (argument : TriggerArgument) (parent : Option ℕ) (now : ℕ) (a : KnowledgeStore)
    → NoWrite a.tables (begin_snapshot argument parent now a)
unfolding begin_snapshot
begin_snapshot-NoWrite argument parent now a =
    bind-NoWrite (coerce_trigger argument) _ a (coerce_trigger-NoWrite argument a) (λ t b coerced.
      rw (← coerce_trigger-eq-returned argument a b t coerced) (
        bind-NoWrite (check_parent t parent) _ b (check_parent-NoWrite t parent b) (λ _ c checked.
          rw (← (check_parent-eq-returned t parent b c checked).0)
            (transaction-NoWrite (insert_and_copy t parent now) c))))
