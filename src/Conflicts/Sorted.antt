-- ===== src/Conflicts/Sorted.antt =====
-- The list of `find_all_conflicts` of src/project_knowledge_mcp/conflict_detector.py:
-- its order and its members.
use mathlib.Core.List.{Memᴰ}
use gitlab_knowledege.Common.{
  ℕ, ◌<◌, ◌≡◌, ◌≢◌, refl, sym, ◌∙◌, true, none, some, List, [], ◌∷◌, ◌++◌, ◌&&◌, ◌==◌,
  if◌then◌else◌, Text, arith, Bool-cases, inl, inr, All,
}
use gitlab_knowledege.Models.{ProjectProfile}
use gitlab_knowledege.Conflicts.{
  Interpreter, ConflictKind, conflict, no_conflict, indeterminate, ConflictResult, ConflictPair,
}
use gitlab_knowledege.Conflicts.Classify.{classify_pair}
use gitlab_knowledege.Conflicts.Find.{
  find_pair, has_pair, pair, before, insert_pair, sort_pairs, store_result, classify_into, offer,
  offer_each, pairs_by_key, find_all_conflicts,
}
use gitlab_knowledege.Conflicts.Pairs.{
  all_edges, find_pair-append, has_pair_iff, find_pair-pairs_by_key,
}
use gitlab_knowledege.Conflicts.Exact.{ConflictIn, all_edges_sound, all_edges_complete}

-- No key twice.
abbrev pub DistinctPairs : List ConflictPair → Type 0
DistinctPairs [] = Unit
DistinctPairs (p ∷ ps) = (find_pair p.project_id_a p.project_id_b ps ≡ none) × DistinctPairs ps

-- Strictly ascending by the two ids.
abbrev pub AscendingPairs : List ConflictPair → Type 0
AscendingPairs [] = Unit
AscendingPairs (p ∷ ps) = All (λ q. before p q ≡ true) ps × AscendingPairs ps

DistinctPairs-append :
    (a b : ℕ) (j : Text) (d : List ConflictPair)
    → find_pair a b d ≡ none
    → DistinctPairs d
    → DistinctPairs (d ++ pair a b j ∷ [])
unfolding find_pair
DistinctPairs-append a b j [] h s = (refl, tt)
DistinctPairs-append a b j (p ∷ ps) h s =
    ground (
      arith,
      find_pair-append p.project_id_a p.project_id_b a b j ps,
      DistinctPairs-append a b j ps,
    )

find_pair-insert_pair :
    (a b : ℕ) (p : ConflictPair) (d : List ConflictPair)
    → find_pair p.project_id_a p.project_id_b d ≡ none
    → find_pair a b (insert_pair p d) ≡ (
        if (p.project_id_a == a) && (p.project_id_b == b)
        then some p.justification
        else find_pair a b d)
unfolding find_pair insert_pair
find_pair-insert_pair a b p [] h = refl
find_pair-insert_pair a b p (q ∷ qs) h = ground (arith, find_pair-insert_pair a b p qs)

find_pair-sort_pairs :
    (a b : ℕ) (d : List ConflictPair)
    → DistinctPairs d
    → find_pair a b (sort_pairs d) ≡ find_pair a b d
unfolding find_pair sort_pairs
find_pair-sort_pairs a b [] s = refl
find_pair-sort_pairs a b (p ∷ ps) s = ground (
  arith,
  find_pair-insert_pair a b p (sort_pairs ps),
  find_pair-sort_pairs p.project_id_a p.project_id_b ps,
  find_pair-sort_pairs a b ps,
)

before_trans : (p q r : ConflictPair) → before p q ≡ true → before q r ≡ true → before p r ≡ true
before_trans p q r h k = ground arith

before-All :
    (p q : ConflictPair) (rs : List ConflictPair)
    → before p q ≡ true
    → All (λ r. before q r ≡ true) rs
    → All (λ r. before p r ≡ true) rs
before-All p q [] h a = tt
before-All p q (r ∷ rs) h a = (before_trans p q r h a.0, before-All p q rs h a.1)

before-insert_pair :
    (q p : ConflictPair) (rs : List ConflictPair)
    → before q p ≡ true
    → All (λ r. before q r ≡ true) rs
    → All (λ r. before q r ≡ true) (insert_pair p rs)
unfolding insert_pair
before-insert_pair q p [] h a = (h, tt)
before-insert_pair q p (r ∷ rs) h a = ground (arith, before-insert_pair q p rs)

AscendingPairs-insert_pair :
    (p : ConflictPair) (d : List ConflictPair)
    → find_pair p.project_id_a p.project_id_b d ≡ none
    → AscendingPairs d
    → AscendingPairs (insert_pair p d)
unfolding find_pair insert_pair
AscendingPairs-insert_pair p [] h s = (tt, tt)
AscendingPairs-insert_pair p (q ∷ qs) h s = elim (Bool-cases (before p q)) [
  | inl lower ↦ rw lower ((lower, before-All p q qs lower s.0), s)
  | inr other ↦
      let higher : before q p ≡ true = ground arith in
      let rest : find_pair p.project_id_a p.project_id_b qs ≡ none = ground arith in
      rw other (before-insert_pair q p qs higher s.0, AscendingPairs-insert_pair p qs rest s.1)
]

AscendingPairs-sort_pairs :
    (d : List ConflictPair) → DistinctPairs d → AscendingPairs (sort_pairs d)
unfolding sort_pairs
AscendingPairs-sort_pairs [] s = tt
AscendingPairs-sort_pairs (p ∷ ps) s =
    AscendingPairs-insert_pair p (sort_pairs ps)
      (find_pair-sort_pairs p.project_id_a p.project_id_b ps s.1 ∙ s.0)
      (AscendingPairs-sort_pairs ps s.1)

DistinctPairs-store_result :
    (a b : ℕ) (r : ConflictResult) (d : List ConflictPair)
    → find_pair a b d ≡ none
    → DistinctPairs d
    → DistinctPairs (store_result a b r d)
unfolding store_result
DistinctPairs-store_result a b r d h s = by_kind r.kind r.justification
  where
    by_kind :
        (k : ConflictKind) (j : Text)
        → DistinctPairs (store_result a b (record { kind = k; justification = j }) d)
    by_kind conflict j = DistinctPairs-append a b j d h s
    by_kind no_conflict j = s
    by_kind indeterminate j = s

module _ (py : Interpreter) where
  DistinctPairs-classify_into :
      (x y : ProjectProfile) (d : List ConflictPair)
      → DistinctPairs d
      → DistinctPairs (classify_into py x y d)
  unfolding classify_into
  DistinctPairs-classify_into x y d s =
      elim (Bool-cases (has_pair x.gitlab_project_id y.gitlab_project_id d)) [
        | inl there ↦ rw there s
        | inr new ↦
            let absent : find_pair x.gitlab_project_id y.gitlab_project_id d ≡ none =
              ground (arith, has_pair_iff x.gitlab_project_id y.gitlab_project_id d) in
            rw new (
              DistinctPairs-store_result x.gitlab_project_id y.gitlab_project_id
                (classify_pair py x y) d absent s)
      ]

  DistinctPairs-offer :
      (x y : ProjectProfile) (d : List ConflictPair)
      → DistinctPairs d
      → DistinctPairs (offer py x y d)
  unfolding offer
  DistinctPairs-offer x y d s =
      ground (arith, DistinctPairs-classify_into x y d s, DistinctPairs-classify_into y x d s, s)

  DistinctPairs-offer_each :
      (x : ProjectProfile) (ys : List ProjectProfile) (d : List ConflictPair)
      → DistinctPairs d
      → DistinctPairs (offer_each py x ys d)
  unfolding offer_each
  DistinctPairs-offer_each x [] d s = s
  DistinctPairs-offer_each x (y ∷ ys) d s =
      DistinctPairs-offer_each x ys (offer py x y d) (DistinctPairs-offer x y d s)

  DistinctPairs-pairs_by_key :
      (xs : List ProjectProfile) (d : List ConflictPair)
      → DistinctPairs d
      → DistinctPairs (pairs_by_key py xs d)
  unfolding pairs_by_key
  DistinctPairs-pairs_by_key [] d s = s
  DistinctPairs-pairs_by_key (x ∷ xs) d s =
      DistinctPairs-pairs_by_key xs (offer_each py x xs d) (DistinctPairs-offer_each x xs d s)

  -- For any list of profiles, the pairs are given strictly ascending by their two ids.
  pub find_all_conflicts_sorted :
      (ps : List ProjectProfile) → AscendingPairs (find_all_conflicts py ps)
  unfolding find_all_conflicts
  find_all_conflicts_sorted ps =
      AscendingPairs-sort_pairs (pairs_by_key py ps []) (DistinctPairs-pairs_by_key ps [] tt)

  find_pair-find_all_conflicts :
      (a b : ℕ) (ps : List ProjectProfile)
      → find_pair a b (find_all_conflicts py ps) ≡ all_edges py a b ps
  unfolding find_all_conflicts find_pair
  find_pair-find_all_conflicts a b ps =
      find_pair-sort_pairs a b (pairs_by_key py ps []) (DistinctPairs-pairs_by_key ps [] tt)
      ∙ find_pair-pairs_by_key py a b ps []

  -- For any list of profiles: a pair of ids is given with a justification only if the list holds
  -- two profiles with these ids, the first below the second, that classify_pair finds in conflict
  -- with that justification; and two profiles of the list, the lower id first, that it finds in
  -- conflict have their pair given.
  pub find_all_conflicts_exact :
      (ps : List ProjectProfile)
      → ((a b : ℕ) (j : Text)
          → find_pair a b (find_all_conflicts py ps) ≡ some j
          → ConflictIn py a b j ps)
        × ((x y : ProjectProfile)
            → Memᴰ x ps
            → Memᴰ y ps
            → x.gitlab_project_id < y.gitlab_project_id
            → (classify_pair py x y).kind ≡ conflict
            → find_pair x.gitlab_project_id y.gitlab_project_id (find_all_conflicts py ps) ≢ none)
  find_all_conflicts_exact ps = (
    λ a b j h. all_edges_sound py a b ps (sym (find_pair-find_all_conflicts a b ps) ∙ h),
    λ x y mx my lt c.
        rw (find_pair-find_all_conflicts x.gitlab_project_id y.gitlab_project_id ps)
          (all_edges_complete py x y ps mx my lt c),
  )
