-- ===== src/Conflicts/Exact.antt =====
-- The pairs of `find_all_conflicts` of src/project_knowledge_mcp/conflict_detector.py
-- against the pairs of profiles that are in conflict.
use mathlib.Core.List.{Memᴰ}
use gitlab_knowledege.Common.{
  ℕ, ◌<◌, ◌≡◌, ◌≢◌, refl, sym, ap, ◌∙◌, Option, none, some, List, [], ◌∷◌, Text, arith, ◌⊎◌, inl,
  inr,
}
use gitlab_knowledege.Models.{ProjectProfile}
use gitlab_knowledege.Conflicts.{Interpreter, conflict, ConflictResult}
use gitlab_knowledege.Conflicts.Classify.{classify_pair}
use gitlab_knowledege.Conflicts.Pairs.{
  or_else, contribution, edge, edges_of, edges_with, all_edges, Conflicting,
}

or_else-eq-some :
    {A : Type 0} (o p : Option A) {x : A} → or_else o p ≡ some x → (o ≡ some x) ⊎ (p ≡ some x)
or_else-eq-some none p h = inr h
or_else-eq-some (some y) p h = inl h

or_else_right : {A : Type 0} (o p : Option A) → p ≢ none → or_else o p ≢ none
or_else_right none p h = h
or_else_right (some y) p h = λ e. cc

or_else_left : {A : Type 0} (o p : Option A) → o ≢ none → or_else o p ≢ none
or_else_left none p h = absurd (h refl)
or_else_left (some y) p h = h

contribution-eq-some :
    (r : ConflictResult) {j : Text}
    → contribution r ≡ some j
    → (r.kind ≡ conflict) × (r.justification ≡ j)
contribution-eq-some r h = ground arith

contribution_conflict : (r : ConflictResult) → r.kind ≡ conflict → contribution r ≢ none
contribution_conflict r h = ground arith

module _ (py : Interpreter) where
  edge-eq-some :
      (a b : ℕ) (x y : ProjectProfile) {j : Text}
      → edge py a b x y ≡ some j
      → (x.gitlab_project_id ≡ a)
        × (y.gitlab_project_id ≡ b)
        × (contribution (classify_pair py x y) ≡ some j)
  edge-eq-some a b x y h = ground arith

  edge-Conflicting :
      (a b : ℕ) (x y : ProjectProfile) {j : Text}
      → x.gitlab_project_id < y.gitlab_project_id
      → edge py a b x y ≡ some j
      → Conflicting py a b j x y
  edge-Conflicting a b x y lt h =
      let (first, second, c) = edge-eq-some a b x y h in
      let (found, reason) = contribution-eq-some (classify_pair py x y) c in
      record {
        below = omega (arith, lt, first, second);
        first = first;
        second = second;
        found = found;
        reason = reason;
      }

  edges_of-eq-some :
      (a b : ℕ) (x y : ProjectProfile) {j : Text}
      → edges_of py a b x y ≡ some j
      → ((x.gitlab_project_id < y.gitlab_project_id) × (edge py a b x y ≡ some j))
        ⊎ ((y.gitlab_project_id < x.gitlab_project_id) × (edge py a b y x ≡ some j))
  edges_of-eq-some a b x y h = ground arith

  -- Two profiles of the list that conflict under the key.
  abbrev pub ConflictIn : ℕ → ℕ → Text → List ProjectProfile → Type 0
  ConflictIn a b j ps = (x y : ProjectProfile) × Memᴰ x ps × Memᴰ y ps × Conflicting py a b j x y

  edges_with_sound :
      (a b : ℕ) (x : ProjectProfile) (ys : List ProjectProfile) {j : Text}
      → edges_with py a b x ys ≡ some j
      → ConflictIn a b j (x ∷ ys)
  edges_with_sound a b x [] h = cc
  edges_with_sound a b x (y ∷ ys) {j} h =
      elim (or_else-eq-some (edges_of py a b x y) (edges_with py a b x ys) h) [
        | inl here ↦ elim (edges_of-eq-some a b x y here) [
          | inl (lt, e) ↦
              (x, y, Memᴰ.head refl, Memᴰ.tail (Memᴰ.head refl), edge-Conflicting a b x y lt e)
          | inr (lt, e) ↦
              (y, x, Memᴰ.tail (Memᴰ.head refl), Memᴰ.head refl, edge-Conflicting a b y x lt e)
        ]
        | inr later ↦
            let (u, v, mu, mv, c) = edges_with_sound a b x ys later in (u, v, wider mu, wider mv, c)
      ]
    where
      wider : {u : ProjectProfile} → Memᴰ u (x ∷ ys) → Memᴰ u (x ∷ y ∷ ys)
      wider (Memᴰ.head e) = Memᴰ.head e
      wider (Memᴰ.tail m) = Memᴰ.tail (Memᴰ.tail m)

  pub all_edges_sound :
      (a b : ℕ) (xs : List ProjectProfile) {j : Text}
      → all_edges py a b xs ≡ some j
      → ConflictIn a b j xs
  all_edges_sound a b [] h = cc
  all_edges_sound a b (x ∷ xs) h =
      elim (or_else-eq-some (edges_with py a b x xs) (all_edges py a b xs) h) [
        | inl here ↦ edges_with_sound a b x xs here
        | inr later ↦
            let (u, v, mu, mv, c) = all_edges_sound a b xs later in
            (u, v, Memᴰ.tail mu, Memᴰ.tail mv, c)
      ]

  -- Both orders of the two profiles contribute.
  edges_of_complete :
      (x y : ProjectProfile)
      → x.gitlab_project_id < y.gitlab_project_id
      → (classify_pair py x y).kind ≡ conflict
      → (edges_of py x.gitlab_project_id y.gitlab_project_id x y ≢ none)
        × (edges_of py x.gitlab_project_id y.gitlab_project_id y x ≢ none)
  edges_of_complete x y lt h =
      let found = contribution_conflict (classify_pair py x y) h in (ground arith, ground arith)

  edges_with_complete :
      (a b : ℕ) (x y : ProjectProfile) (ys : List ProjectProfile)
      → Memᴰ y ys
      → edges_of py a b x y ≢ none
      → edges_with py a b x ys ≢ none
  edges_with_complete a b x y [] m h = elim m [ ]
  edges_with_complete a b x y (z ∷ ys) (Memᴰ.head e) h =
      or_else_left (edges_of py a b x z) (edges_with py a b x ys) (rw (← e) h)
  edges_with_complete a b x y (z ∷ ys) (Memᴰ.tail m) h =
      or_else_right (edges_of py a b x z) (edges_with py a b x ys)
        (edges_with_complete a b x y ys m h)

  pub all_edges_complete :
      (x y : ProjectProfile) (ps : List ProjectProfile)
      → Memᴰ x ps
      → Memᴰ y ps
      → x.gitlab_project_id < y.gitlab_project_id
      → (classify_pair py x y).kind ≡ conflict
      → all_edges py x.gitlab_project_id y.gitlab_project_id ps ≢ none
  all_edges_complete x y [] m m' lt h = elim m [ ]
  all_edges_complete x y (p ∷ ps) (Memᴰ.head e) (Memᴰ.head e') lt h =
      absurd (omega (arith, ap (λ z. z.gitlab_project_id) (e ∙ sym e'), lt))
  all_edges_complete x y (p ∷ ps) (Memᴰ.head e) (Memᴰ.tail m) lt h =
      or_else_left _ (all_edges py _ _ ps) (
        rw (← e) (
          edges_with_complete x.gitlab_project_id y.gitlab_project_id x y ps m
            (edges_of_complete x y lt h).0))
  all_edges_complete x y (p ∷ ps) (Memᴰ.tail m) (Memᴰ.head e) lt h =
      or_else_left _ (all_edges py _ _ ps) (
        rw (← e) (
          edges_with_complete x.gitlab_project_id y.gitlab_project_id y x ps m
            (edges_of_complete x y lt h).1))
  all_edges_complete x y (p ∷ ps) (Memᴰ.tail m) (Memᴰ.tail m') lt h =
      or_else_right _ (all_edges py _ _ ps) (all_edges_complete x y ps m m' lt h)
