-- ===== src/Connector/Selection/Order.antt =====
-- The order of the file paths of src/project_knowledge_mcp/gitlab_connector.py.
use gitlab_knowledege.Common.{
  ◌≡◌, refl, true, false, List, [], ◌∷◌, Text, arith, All, Bool-cases, inl, inr,
}
use gitlab_knowledege.Connector.Selection.{leb_text, insert_text, sort_texts}

leb_text_total : (s t : Text) → leb_text s t ≡ false → leb_text t s ≡ true
unfolding leb_text
leb_text_total [] t h = cc
leb_text_total (c ∷ s) [] h = refl
leb_text_total (c ∷ s) (d ∷ t) h = ground (arith, leb_text_total s t)

leb_text_antisym : (s t : Text) → leb_text s t ≡ true → leb_text t s ≡ true → s ≡ t
unfolding leb_text
leb_text_antisym [] [] h k = refl
leb_text_antisym [] (d ∷ t) h k = cc
leb_text_antisym (c ∷ s) [] h k = cc
leb_text_antisym (c ∷ s) (d ∷ t) h k = ground (arith, leb_text_antisym s t)

leb_text_trans : (s t u : Text) → leb_text s t ≡ true → leb_text t u ≡ true → leb_text s u ≡ true
unfolding leb_text
leb_text_trans [] t u h k = refl
leb_text_trans (c ∷ s) [] u h k = cc
leb_text_trans (c ∷ s) (d ∷ t) [] h k = cc
leb_text_trans (c ∷ s) (d ∷ t) (e ∷ u) h k = ground (arith, leb_text_trans s t u)

-- Two insertions commute, so the order of the arrivals does not show.
pub insert_text_comm :
    (s t : Text) (us : List Text)
    → insert_text s (insert_text t us) ≡ insert_text t (insert_text s us)
unfolding insert_text
insert_text_comm s t [] = ground (arith, leb_text_total s t, leb_text_antisym s t)
insert_text_comm s t (u ∷ us) = ground (
  arith,
  insert_text_comm s t us,
  leb_text_total s t,
  leb_text_antisym s t,
  leb_text_trans s t u,
  leb_text_trans t s u,
)

-- Each path is at most every later one.
abbrev pub Ascending : List Text → Type 0
Ascending [] = Unit
Ascending (t ∷ ts) = All (λ u. leb_text t u ≡ true) ts × Ascending ts

above_insert :
    (b t : Text) (us : List Text)
    → leb_text b t ≡ true
    → All (λ u. leb_text b u ≡ true) us
    → All (λ u. leb_text b u ≡ true) (insert_text t us)
unfolding insert_text
above_insert b t [] h hs = (h, tt)
above_insert b t (u ∷ us) h (k, ks) = elim (Bool-cases (leb_text t u)) [
  | inl e ↦ rw e (h, (k, ks))
  | inr e ↦ rw e (k, above_insert b t us h ks)
]

above-All :
    (t u : Text) (us : List Text)
    → leb_text t u ≡ true
    → All (λ v. leb_text u v ≡ true) us
    → All (λ v. leb_text t v ≡ true) us
above-All t u [] h hs = tt
above-All t u (v ∷ us) h (k, ks) = (leb_text_trans t u v h k, above-All t u us h ks)

insert_text-Ascending : (t : Text) (us : List Text) → Ascending us → Ascending (insert_text t us)
unfolding insert_text
insert_text-Ascending t [] h = (tt, tt)
insert_text-Ascending t (u ∷ us) (h, hs) = elim (Bool-cases (leb_text t u)) [
  | inl e ↦ rw e ((e, above-All t u us e h), (h, hs))
  | inr e ↦ rw e (above_insert u t us (leb_text_total t u e) h, insert_text-Ascending t us hs)
]

pub sort_texts-Ascending : (ts : List Text) → Ascending (sort_texts ts)
unfolding sort_texts
sort_texts-Ascending [] = tt
sort_texts-Ascending (t ∷ ts) = insert_text-Ascending t (sort_texts ts) (sort_texts-Ascending ts)

insert_text-All {κ} :
    (P : Text → Type κ) (t : Text) (us : List Text) → P t → All P us → All P (insert_text t us)
unfolding insert_text
insert_text-All P t [] h hs = (h, hs)
insert_text-All P t (u ∷ us) h (k, ks) = elim (Bool-cases (leb_text t u)) [
  | inl e ↦ rw e (h, (k, ks))
  | inr e ↦ rw e (k, insert_text-All P t us h ks)
]

pub sort_texts-All {κ} : (P : Text → Type κ) (ts : List Text) → All P ts → All P (sort_texts ts)
unfolding sort_texts
sort_texts-All P [] h = tt
sort_texts-All P (t ∷ ts) (h, hs) = insert_text-All P t (sort_texts ts) h (sort_texts-All P ts hs)
