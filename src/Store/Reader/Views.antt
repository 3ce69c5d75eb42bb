-- ===== src/Store/Reader/Views.antt =====
-- Two runs of a reader of src/project_knowledge_mcp/knowledge_store.py, on two stores.
use mathlib.Core.Path.{subst}
use gitlab_knowledege.Common.{
  ℕ, ◌≡◌, refl, ap, Bool, true, false, Option, none, some, List, [], ◌∷◌, ◌⊎◌, inl, inr,
}
use gitlab_knowledege.Exec.{
  Error, Outcome, returned, raised, Exec, pure, raise, handle, catch, resume, ◌>>=◌,
}
use gitlab_knowledege.Store.Tables.{Tables, KnowledgeStore, execute}
use gitlab_knowledege.Store.Reader.{guarded, read_guard, pointer_of}

abbrev pub store : Tables → Bool → List (Option Error) → KnowledgeStore
store t b fs = record { tables = t; is_open = b; faults = fs }

-- What the caller gets: the exception, or the value.
abbrev pub answer {ℓ} : {S A : Type ℓ} → Outcome S A → Error ⊎ A
answer (returned a s) = inr a
answer (raised e s) = inl e

-- Two runs from the tables t and u that have gone alike so far.
pub data Alike (t u : Tables) {A : Type 0}
    : Outcome KnowledgeStore A → Outcome KnowledgeStore A → Type 0 where
  values :
      {a a' : A} (b : Bool) (fs : List (Option Error))
      → a ≡ a'
      → Alike t u (returned a (store t b fs)) (returned a' (store u b fs))
  errors : {e : Error} {s s' : KnowledgeStore} → Alike t u (raised e s) (raised e s')

pub answer_of_Alike :
    {t u : Tables} {A : Type 0} {o o' : Outcome KnowledgeStore A}
    → Alike t u o o'
    → answer o ≡ answer o'
answer_of_Alike (values b fs h) = ap inr h
answer_of_Alike errors = refl

-- A method that goes alike from both.
pub record Uniform (t u : Tables) {A : Type 0} (m : Exec KnowledgeStore A) : Type 0 where
  pub at : (b : Bool) (fs : List (Option Error)) → Alike t u (m (store t b fs)) (m (store u b fs))

module _ {t u : Tables} where
  pub Uniform-pure : {A : Type 0} (a : A) → Uniform t u (pure a)
  unfolding pure
  Uniform-pure a = record { at = λ b fs. values b fs refl }

  pub Uniform-raise : {A : Type 0} (e : Error) → Uniform t u (raise {A = A} e)
  unfolding raise
  Uniform-raise e = record { at = λ b fs. errors }

  resume-Alike :
      {A B : Type 0} {o o' : Outcome KnowledgeStore A} (f : A → Exec KnowledgeStore B)
      → Alike t u o o'
      → ((a : A) → Uniform t u (f a))
      → Alike t u (resume o f) (resume o' f)
  resume-Alike f (values {a = a} b fs h) k =
      subst (λ x. Alike t u (f a (store t b fs)) (f x (store u b fs))) h ((k a).at b fs)
  resume-Alike f errors k = errors

  pub Uniform-bind :
      {A B : Type 0} (m : Exec KnowledgeStore A) (f : A → Exec KnowledgeStore B)
      → Uniform t u m
      → ((a : A) → Uniform t u (f a))
      → Uniform t u (m >>= f)
  unfolding ◌>>=◌
  Uniform-bind m f km kf = record { at = λ b fs. resume-Alike f (km.at b fs) kf }

  pub Uniform-execute :
      {A : Type 0} (f : Tables → A) → f t ≡ f u → Uniform t u (execute (λ x. returned (f x) x))
  unfolding execute
  Uniform-execute f h = record {
    at = elim [
      | true ↦ elim [
        | [] ↦ values true [] h
        | o ∷ fs ↦
            elim o
              as (λ x.
                Alike t u (execute (λ y. returned (f y) y) (store t true (x ∷ fs)))
                  (execute (λ y. returned (f y) y) (store u true (x ∷ fs)))) [
                    | none ↦ values true fs h
                    | some e ↦ errors
                  ]
      ]
      | false ↦ λ fs. errors
    ];
  }

  guarded-Alike :
      {A : Type 0} {o o' : Outcome KnowledgeStore A}
      → Alike t u o o'
      → Alike t u (handle o (λ e. raise (guarded e))) (handle o' (λ e. raise (guarded e)))
  unfolding raise
  guarded-Alike (values b fs h) = values b fs h
  guarded-Alike errors = errors

  pub Uniform-read_guard :
      {A : Type 0} (m : Exec KnowledgeStore A) → Uniform t u m → Uniform t u (read_guard m)
  unfolding read_guard catch
  Uniform-read_guard m h = record { at = λ b fs. guarded-Alike (h.at b fs) }

  pub Uniform-read :
      {A : Type 0} (f : Tables → A)
      → f t ≡ f u
      → Uniform t u (read_guard (execute (λ x. returned (f x) x)))
  Uniform-read f h = Uniform-read_guard _ (Uniform-execute f h)

  pub pointer_of-Uniform : (o : Option (Option ℕ)) → Uniform t u (pointer_of o)
  unfolding pointer_of
  pointer_of-Uniform none = Uniform-raise _
  pointer_of-Uniform (some p) = Uniform-pure p

  -- A read, and a rest that may use the value that it has.
  pub Uniform-read_then :
      {A B : Type 0} (g : Tables → A) (f : A → Exec KnowledgeStore B)
      → g t ≡ g u
      → Uniform t u (f (g t))
      → Uniform t u (read_guard (execute (λ x. returned (g x) x)) >>= f)
  unfolding read_guard catch execute ◌>>=◌ raise
  Uniform-read_then {A} {B} g f h k = record {
    at = elim [
      | true ↦ elim [
        | [] ↦ same true []
        | o ∷ fs ↦
            elim o
              as (λ x.
                Alike t u
                  ((read_guard (execute (λ y. returned (g y) y)) >>= f) (store t true (x ∷ fs)))
                  ((read_guard (execute (λ y. returned (g y) y)) >>= f) (store u true (x ∷ fs)))) [
                    | none ↦ same true fs
                    | some e ↦ errors
                  ]
      ]
      | false ↦ λ fs. errors
    ];
  }
    where
      same :
          (b : Bool) (fs : List (Option Error))
          → Alike t u (f (g t) (store t b fs)) (f (g u) (store u b fs))
      same b fs = subst (λ x. Alike t u (f (g t) (store t b fs)) (f x (store u b fs))) h (k.at b fs)
