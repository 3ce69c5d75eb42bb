-- ===== src/Conflicts/Pairs.antt =====
-- The pairs that `find_all_conflicts` of src/project_knowledge_mcp/conflict_detector.py gives.
use gitlab_knowledege.Common.{
  ℕ, ◌<◌, ◌≡◌, refl, ap, ◌∙◌, true, false, Option, none, some, List, [], ◌∷◌, ◌++◌, ◌&&◌, ◌==◌, ltb,
  if◌then◌else◌, Text, arith,
}
use gitlab_knowledege.Models.{ProjectProfile}
use gitlab_knowledege.Conflicts.{
  Interpreter, ConflictKind, conflict, no_conflict, indeterminate, ConflictResult, ConflictPair,
}
use gitlab_knowledege.Conflicts.Classify.{classify_pair}
use gitlab_knowledege.Conflicts.Find.{
  find_pair, has_pair, pair, store_result, classify_into, offer, offer_each, pairs_by_key,
}

abbrev pub or_else : {A : Type 0} → Option A → Option A → Option A
or_else none o = o
or_else (some x) o = some x

or_else_assoc : {A : Type 0} (a b c : Option A) → or_else (or_else a b) c ≡ or_else a (or_else b c)
or_else_assoc none b c = refl
or_else_assoc (some x) b c = refl

pub has_pair_iff :
    (a b : ℕ) (d : List ConflictPair)
    → has_pair a b d ≡ (elim (find_pair a b d) [ none ↦ false | some _ ↦ true ])
unfolding has_pair find_pair
has_pair_iff a b [] = refl
has_pair_iff a b (p ∷ ps) = ground (arith, has_pair_iff a b ps)

pub find_pair-append :
    (a b c e : ℕ) (j : Text) (d : List ConflictPair)
    → find_pair a b (d ++ pair c e j ∷ [])
      ≡ or_else (find_pair a b d) (if (c == a) && (e == b) then some j else none)
unfolding find_pair
find_pair-append a b c e j [] = ground arith
find_pair-append a b c e j (p ∷ ps) = ground (arith, find_pair-append a b c e j ps)

-- What a result contributes under the key (a, b).
abbrev pub contribution : ConflictResult → Option Text
contribution r = elim r.kind [
  | conflict ↦ some r.justification
  | no_conflict ↦ none
  | indeterminate ↦ none
]

find_pair-store_result :
    (a b c e : ℕ) (r : ConflictResult) (d : List ConflictPair)
    → find_pair a b (store_result c e r d)
      ≡ or_else (find_pair a b d) (if (c == a) && (e == b) then contribution r else none)
unfolding store_result
find_pair-store_result a b c e r d = by_kind r.kind r.justification
  where
    by_kind :
        (k : ConflictKind) (j : Text)
        → find_pair a b (store_result c e (record { kind = k; justification = j }) d)
          ≡ or_else (find_pair a b d) (
              if (c == a) && (e == b)
              then contribution (record { kind = k; justification = j })
              else none)
    by_kind conflict j = find_pair-append a b c e j d
    by_kind no_conflict j = ground arith
    by_kind indeterminate j = ground arith

module _ (py : Interpreter) where
  -- What the profiles, lower id first, contribute under the key (a, b).
  abbrev pub edge : ℕ → ℕ → ProjectProfile → ProjectProfile → Option Text
  edge a b x y =
      if (x.gitlab_project_id == a) && (y.gitlab_project_id == b)
      then contribution (classify_pair py x y)
      else none

  find_pair-classify_into :
      (a b : ℕ) (x y : ProjectProfile) (d : List ConflictPair)
      → find_pair a b (classify_into py x y d) ≡ or_else (find_pair a b d) (edge a b x y)
  unfolding classify_into
  find_pair-classify_into a b x y d = ground (
    arith,
    has_pair_iff x.gitlab_project_id y.gitlab_project_id d,
    find_pair-store_result a b x.gitlab_project_id y.gitlab_project_id (classify_pair py x y) d,
  )

  abbrev pub edges_of : ℕ → ℕ → ProjectProfile → ProjectProfile → Option Text
  edges_of a b x y =
      if x.gitlab_project_id == y.gitlab_project_id
      then none
      else if ltb x.gitlab_project_id y.gitlab_project_id
      then edge a b x y
      else edge a b y x

  find_pair-offer :
      (a b : ℕ) (x y : ProjectProfile) (d : List ConflictPair)
      → find_pair a b (offer py x y d) ≡ or_else (find_pair a b d) (edges_of a b x y)
  unfolding offer
  find_pair-offer a b x y d =
      ground (arith, find_pair-classify_into a b x y d, find_pair-classify_into a b y x d)

  -- What the profile contributes together with those after it.
  abbrev pub edges_with : ℕ → ℕ → ProjectProfile → List ProjectProfile → Option Text
  edges_with a b x [] = none
  edges_with a b x (y ∷ ys) = or_else (edges_of a b x y) (edges_with a b x ys)

  find_pair-offer_each :
      (a b : ℕ) (x : ProjectProfile) (ys : List ProjectProfile) (d : List ConflictPair)
      → find_pair a b (offer_each py x ys d) ≡ or_else (find_pair a b d) (edges_with a b x ys)
  unfolding offer_each
  find_pair-offer_each a b x [] d = ground arith
  find_pair-offer_each a b x (y ∷ ys) d =
      find_pair-offer_each a b x ys (offer py x y d)
      ∙ ap (λ o. or_else o (edges_with a b x ys)) (find_pair-offer a b x y d)
      ∙ or_else_assoc (find_pair a b d) (edges_of a b x y) (edges_with a b x ys)

  -- What all pairs contribute, in the order of the loops.
  abbrev pub all_edges : ℕ → ℕ → List ProjectProfile → Option Text
  all_edges a b [] = none
  all_edges a b (x ∷ xs) = or_else (edges_with a b x xs) (all_edges a b xs)

  pub find_pair-pairs_by_key :
      (a b : ℕ) (xs : List ProjectProfile) (d : List ConflictPair)
      → find_pair a b (pairs_by_key py xs d) ≡ or_else (find_pair a b d) (all_edges a b xs)
  unfolding pairs_by_key
  find_pair-pairs_by_key a b [] d = ground arith
  find_pair-pairs_by_key a b (x ∷ xs) d =
      find_pair-pairs_by_key a b xs (offer_each py x xs d)
      ∙ ap (λ o. or_else o (all_edges a b xs)) (find_pair-offer_each a b x xs d)
      ∙ or_else_assoc (find_pair a b d) (edges_with a b x xs) (all_edges a b xs)

  -- Two profiles with these ids, the first below the second, that are classified as a conflict.
  pub record Conflicting (a b : ℕ) (j : Text) (x y : ProjectProfile) : Type 0 where
    pub below : a < b
    pub first : x.gitlab_project_id ≡ a
    pub second : y.gitlab_project_id ≡ b
    pub found : (classify_pair py x y).kind ≡ conflict
    pub reason : (classify_pair py x y).justification ≡ j
