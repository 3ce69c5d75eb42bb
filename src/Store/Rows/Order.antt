-- ===== src/Store/Rows/Order.antt =====
-- ORDER BY gitlab_project_id ASC, in src/project_knowledge_mcp/knowledge_store.py.
use gitlab_knowledege.Common.{
  ℕ, ◌<◌, ◌≡◌, refl, ◌∙◌, none, some, List, [], ◌∷◌, arith, ◌==◌, if◌then◌else◌,
}
use gitlab_knowledege.Store.Rows.{insert_by_id, order_by_id}
use gitlab_knowledege.Store.Rows.Laws.{get, Distinct}

module _ {ℓ} {V : Type ℓ} where
  -- Every id of the list is above `n`.
  abbrev pub Above : ℕ → List (ℕ × V) → Type 0
  Above n [] = Unit
  Above n ((p, v) ∷ l) = (n < p) × Above n l

  -- Strictly ascending by project id.
  abbrev pub Ascending : List (ℕ × V) → Type 0
  Ascending [] = Unit
  Ascending ((p, v) ∷ l) = Above p l × Ascending l

  Above-trans : (m n : ℕ) (l : List (ℕ × V)) → m < n → Above n l → Above m l
  Above-trans m n [] h a = tt
  Above-trans m n ((p, v) ∷ l) h a = (omega arith, Above-trans m n l h a.1)

  get-insert_by_id :
      (q p : ℕ) (v : V) (l : List (ℕ × V))
      → get p l ≡ none
      → get q (insert_by_id (p, v) l) ≡ (if p == q then some v else get q l)
  unfolding get insert_by_id
  get-insert_by_id q p v [] h = refl
  get-insert_by_id q p v ((r, w) ∷ l) h = ground (arith, get-insert_by_id q p v l)

  -- For rows without a repeated project id, the ORDER BY keeps what each id is bound to.
  pub get-order_by_id : (q : ℕ) (l : List (ℕ × V)) → Distinct l → get q (order_by_id l) ≡ get q l
  unfolding get order_by_id
  get-order_by_id q [] d = refl
  get-order_by_id q ((p, v) ∷ l) d =
      ground
        (arith, get-insert_by_id q p v (order_by_id l), get-order_by_id p l, get-order_by_id q l)

  Above-insert_by_id :
      (n p : ℕ) (v : V) (l : List (ℕ × V)) → n < p → Above n l → Above n (insert_by_id (p, v) l)
  unfolding insert_by_id
  Above-insert_by_id n p v [] h a = (h, tt)
  Above-insert_by_id n p v ((r, w) ∷ l) h a = ground (arith, Above-insert_by_id n p v l)

  Ascending-insert_by_id :
      (p : ℕ) (v : V) (l : List (ℕ × V))
      → get p l ≡ none
      → Ascending l
      → Ascending (insert_by_id (p, v) l)
  unfolding get insert_by_id
  Ascending-insert_by_id p v [] h a = (tt, tt)
  Ascending-insert_by_id p v ((r, w) ∷ l) h a =
      ground (arith, Ascending-insert_by_id p v l, Above-insert_by_id r p v l, Above-trans p r l)

  -- Rows without a repeated project id come out of the ORDER BY strictly ascending by project id.
  pub Ascending-order_by_id : (l : List (ℕ × V)) → Distinct l → Ascending (order_by_id l)
  unfolding order_by_id
  Ascending-order_by_id [] d = tt
  Ascending-order_by_id ((p, v) ∷ l) d =
      Ascending-insert_by_id p v (order_by_id l) (get-order_by_id p l d.1 ∙ d.0)
        (Ascending-order_by_id l d.1)
