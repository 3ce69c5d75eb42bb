-- ===== src/Connector/Selection/Laws.antt =====
-- The files that src/project_knowledge_mcp/gitlab_connector.py chooses of a repository.
use mathlib.Core.List.{Perm, Permᴰ}
use mathlib.Core.Logic.{∥∥₁_elim}
use gitlab_knowledege.Common.{
  ℕ, zero, suc, ◌≤◌, ◌≡◌, refl, ap, ◌∙◌, sym, Bool, true, List, [], ◌∷◌, Text, codes, arith, All,
  Bool-cases, inl, inr, if◌then◌else◌, member_of, eq_text, length, ==-refl,
}
use gitlab_knowledege.Connector.Selection.{
  insert_text, sort_texts, admit_all, first_of, max_analyzable_files, admission, choose_paths,
  capped_paths,
}
use gitlab_knowledege.Connector.Selection.Order.{
  insert_text_comm, Ascending, sort_texts-Ascending, sort_texts-All,
}

member_of-perm : {xs ys : List Text} (t : Text) → Permᴰ xs ys → member_of t xs ≡ member_of t ys
member_of-perm t Permᴰ.nil = refl
member_of-perm t (Permᴰ.cons e p) = rw (e, member_of-perm t p)
member_of-perm t (Permᴰ.swap e f) = rw (e, f) (ground arith)
member_of-perm t (Permᴰ.trans p q) = member_of-perm t p ∙ member_of-perm t q

module _ (admit : Text → Bool) where
  -- One path more.
  place : Text → List Text → List Text
  place t ts = if admit t then insert_text t ts else ts

  place_comm : (s t : Text) (us : List Text) → place s (place t us) ≡ place t (place s us)
  unfolding place
  place_comm s t us = ground (arith, insert_text_comm s t us)

  sort_texts-admit_all :
      (t : Text) (ts : List Text)
      → sort_texts (admit_all admit (t ∷ ts)) ≡ place t (sort_texts (admit_all admit ts))
  unfolding sort_texts admit_all place
  sort_texts-admit_all t ts = ground arith

  swapped :
      (s t : Text) (ts : List Text)
      → sort_texts (admit_all admit (s ∷ t ∷ ts))
        ≡ place s (place t (sort_texts (admit_all admit ts)))
  swapped s t ts = rw (sort_texts-admit_all s (t ∷ ts), sort_texts-admit_all t ts)

  admitted-perm :
      {xs ys : List Text}
      → Permᴰ xs ys
      → sort_texts (admit_all admit xs) ≡ sort_texts (admit_all admit ys)
  admitted-perm Permᴰ.nil = refl
  admitted-perm (Permᴰ.cons {b} {l₁} {l₂} e p) =
      rw (e, sort_texts-admit_all b l₁, sort_texts-admit_all b l₂, admitted-perm p)
  admitted-perm (Permᴰ.swap {a'} {b'} {l} e f) =
      rw (e, f) (swapped b' a' l ∙ place_comm b' a' _ ∙ sym (swapped a' b' l))
  admitted-perm (Permᴰ.trans p q) = admitted-perm p ∙ admitted-perm q

  admit_all-All : (ps : List Text) → All (λ p. admit p ≡ true) (admit_all admit ps)
  unfolding admit_all
  admit_all-All [] = tt
  admit_all-All (p ∷ ps) = elim (Bool-cases (admit p)) [
    | inl e ↦ rw e (e, admit_all-All ps)
    | inr e ↦ rw e (admit_all-All ps)
  ]

  admit_all-listed :
      (all ps : List Text)
      → All (λ p. member_of p all ≡ true) ps
      → All (λ p. member_of p all ≡ true) (admit_all admit ps)
  unfolding admit_all
  admit_all-listed all [] h = tt
  admit_all-listed all (p ∷ ps) (h, hs) = elim (Bool-cases (admit p)) [
    | inl e ↦ rw e (h, admit_all-listed all ps hs)
    | inr e ↦ rw e (admit_all-listed all ps hs)
  ]

first_of-All {κ} : (P : Text → Type κ) (n : ℕ) (ps : List Text) → All P ps → All P (first_of n ps)
unfolding first_of
first_of-All P zero ps h = tt
first_of-All P (suc n) [] h = tt
first_of-All P (suc n) (p ∷ ps) (h, hs) = (h, first_of-All P n ps hs)

first_of-Ascending : (n : ℕ) (ps : List Text) → Ascending ps → Ascending (first_of n ps)
unfolding first_of
first_of-Ascending zero ps h = tt
first_of-Ascending (suc n) [] h = tt
first_of-Ascending (suc n) (p ∷ ps) (h, hs) = (first_of-All _ n ps h, first_of-Ascending n ps hs)

length-first_of : (n : ℕ) (ps : List Text) → length (first_of n ps) ≤ n
unfolding first_of
length-first_of zero ps = omega arith
length-first_of (suc n) [] = omega arith
length-first_of (suc n) (p ∷ ps) = omega (arith, length-first_of n ps)

eq_text_refl : (t : Text) → eq_text t t ≡ true
eq_text_refl [] = refl
eq_text_refl (c ∷ t) = rw (==-refl c, eq_text_refl t)

listed_more :
    (u : Text) (all ps : List Text)
    → All (λ p. member_of p all ≡ true) ps
    → All (λ p. member_of p (u ∷ all) ≡ true) ps
listed_more u all [] h = tt
listed_more u all (p ∷ ps) (h, hs) = (ground arith, listed_more u all ps hs)

All-listed : (ps : List Text) → All (λ p. member_of p ps ≡ true) ps
All-listed [] = tt
All-listed (p ∷ ps) = (rw (eq_text_refl p), listed_more p ps ps (All-listed ps))

module _ (lower : Text → Text) where
  same_admission : {xs ys : List Text} → Permᴰ xs ys → admission lower xs ≡ admission lower ys
  unfolding admission
  same_admission p = rw (member_of-perm (codes "go.mod") p)

  capped_paths-permᴰ :
      {xs ys : List Text} → Permᴰ xs ys → capped_paths lower xs ≡ capped_paths lower ys
  unfolding capped_paths choose_paths
  capped_paths-permᴰ {xs} {ys} p =
      ap (first_of max_analyzable_files)
        (rw (same_admission p) (admitted-perm (admission lower ys) p))

  -- Two listings of a tree that differ in their order only have the same files chosen for
  -- fetching, the cap included.
  pub capped_paths-perm :
      {xs ys : List Text} → Perm xs ys → capped_paths lower xs ≡ capped_paths lower ys
  capped_paths-perm p = ∥∥₁_elim p (hlevel) capped_paths-permᴰ

  -- What is fetched of a repository with these files.
  pub record IsSelection (blob_paths paths : List Text) : Type 0 where
    pub ascending : Ascending paths
    pub few : length paths ≤ max_analyzable_files
    pub admitted : All (λ p. admission lower blob_paths p ≡ true) paths
    pub listed : All (λ p. member_of p blob_paths ≡ true) paths

  pub capped_paths-IsSelection :
      (blob_paths : List Text) → IsSelection blob_paths (capped_paths lower blob_paths)
  unfolding capped_paths choose_paths
  capped_paths-IsSelection blob_paths =
      let admit = admission lower blob_paths in
      record {
        ascending =
            first_of-Ascending max_analyzable_files _
              (sort_texts-Ascending (admit_all admit blob_paths));
        few = length-first_of max_analyzable_files (sort_texts (admit_all admit blob_paths));
        admitted =
            first_of-All (λ p. admit p ≡ true) max_analyzable_files _
              (sort_texts-All (λ p. admit p ≡ true) _ (admit_all-All admit blob_paths));
        listed =
            first_of-All (λ p. member_of p blob_paths ≡ true) max_analyzable_files _
              (sort_texts-All (λ p. member_of p blob_paths ≡ true) _
                (admit_all-listed admit blob_paths blob_paths (All-listed blob_paths)));
      }
