-- ===== src/Conflicts/Find.antt =====
-- `find_all_conflicts` of src/project_knowledge_mcp/conflict_detector.py. The dict is the list of
-- its values in the order of insertion; the key of a value is its two ids.
use gitlab_knowledege.Common.{
  ℕ, Bool, false, Option, none, some, List, [], ◌∷◌, ◌++◌, ◌&&◌, ◌||◌, ◌==◌, ltb, if◌then◌else◌,
  Text,
}
use gitlab_knowledege.Models.{ProjectProfile}
use gitlab_knowledege.Conflicts.{
  Interpreter, conflict, no_conflict, indeterminate, ConflictResult, ConflictPair,
}
use gitlab_knowledege.Conflicts.Classify.{classify_pair}

-- `pairs_by_key.get((a, b))`, as its justification
unfoldable pub find_pair : ℕ → ℕ → List ConflictPair → Option Text
find_pair a b [] = none
find_pair a b (p ∷ ps) =
    if (p.project_id_a == a) && (p.project_id_b == b)
    then some p.justification
    else find_pair a b ps

-- `key in pairs_by_key`
unfoldable pub has_pair : ℕ → ℕ → List ConflictPair → Bool
has_pair a b [] = false
has_pair a b (p ∷ ps) = ((p.project_id_a == a) && (p.project_id_b == b)) || has_pair a b ps

abbrev pub pair : ℕ → ℕ → Text → ConflictPair
pair a b j = record { project_id_a = a; project_id_b = b; justification = j }

-- The order of tuples of two numbers.
abbrev pub before : ConflictPair → ConflictPair → Bool
before p q =
    ltb p.project_id_a q.project_id_a
    || ((p.project_id_a == q.project_id_a) && ltb p.project_id_b q.project_id_b)

unfoldable pub insert_pair : ConflictPair → List ConflictPair → List ConflictPair
insert_pair p [] = p ∷ []
insert_pair p (q ∷ qs) = if before p q then p ∷ q ∷ qs else q ∷ insert_pair p qs

-- `[pairs_by_key[key] for key in sorted(pairs_by_key)]`
unfoldable pub sort_pairs : List ConflictPair → List ConflictPair
sort_pairs [] = []
sort_pairs (p ∷ ps) = insert_pair p (sort_pairs ps)

unfoldable pub store_result : ℕ → ℕ → ConflictResult → List ConflictPair → List ConflictPair
store_result a b r d = elim r.kind [
  | conflict ↦ d ++ pair a b r.justification ∷ []
  | no_conflict ↦ d
  | indeterminate ↦ d
]

module _ (py : Interpreter) where
  -- For profiles in the order of their ids.
  unfoldable pub classify_into :
      ProjectProfile → ProjectProfile → List ConflictPair → List ConflictPair
  classify_into first second d =
      if has_pair first.gitlab_project_id second.gitlab_project_id d
      then d
      else store_result first.gitlab_project_id second.gitlab_project_id
          (classify_pair py first second) d

  -- The body of the inner loop.
  unfoldable pub offer : ProjectProfile → ProjectProfile → List ConflictPair → List ConflictPair
  offer x y d =
      if x.gitlab_project_id == y.gitlab_project_id
      then d
      else if ltb x.gitlab_project_id y.gitlab_project_id
      then classify_into x y d
      else classify_into y x d

  unfoldable pub offer_each :
      ProjectProfile → List ProjectProfile → List ConflictPair → List ConflictPair
  offer_each x [] d = d
  offer_each x (y ∷ ys) d = offer_each x ys (offer x y d)

  unfoldable pub pairs_by_key : List ProjectProfile → List ConflictPair → List ConflictPair
  pairs_by_key [] d = d
  pairs_by_key (x ∷ xs) d = pairs_by_key xs (offer_each x xs d)

  unfoldable pub find_all_conflicts : List ProjectProfile → List ConflictPair
  find_all_conflicts profiles = sort_pairs (pairs_by_key profiles [])
