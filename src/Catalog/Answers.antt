-- ===== src/Catalog/Answers.antt =====
-- The readers of src/project_knowledge_mcp/project_catalog.py on two stores with one view, and on
-- one store.
use gitlab_knowledege.Common.{
  ℕ, ◌<◌, ◌≡◌, refl, sym, ap, ◌∙◌, ◌==◌, Bool, false, Option, none, some, List, [], ◌∷◌, String,
  if◌then◌else◌,
}
use gitlab_knowledege.Exec.{Error, returned, pure, catch, ◌>>=◌}
use gitlab_knowledege.Store.Invariant.{SameView, IsValid}
use gitlab_knowledege.Store.Rows.{scan, select, order_by_id}
use gitlab_knowledege.Store.Rows.Laws.{get, select-eq-get}
use gitlab_knowledege.Store.Rows.Order.{Above, Ascending, get-order_by_id, Ascending-order_by_id}
use gitlab_knowledege.Store.Tables.{Tables, execute}
use gitlab_knowledege.Store.Reader.{read_guard, get_current_snapshot_id}
use gitlab_knowledege.Store.Reader.Views.{
  store, answer, answer_of_Alike, Uniform, Uniform-pure, Uniform-bind, Uniform-read,
}
use gitlab_knowledege.Store.Reader.Answers.{current_then-Uniform}
use gitlab_knowledege.Store.Serves.{healthy}
use gitlab_knowledege.Catalog.{
  InScopeProject, in_scope_rows, list_in_scope_of, list_in_scope, is_some, is_in_scope_of,
  is_in_scope,
}

module _ {t u : Tables} (same : SameView t u) where
  list_in_scope-Uniform : Uniform t u list_in_scope
  unfolding list_in_scope
  list_in_scope-Uniform = current_then-Uniform same list_in_scope_of (Uniform-pure []) (λ s e.
      Uniform-bind _ (λ rows. pure (in_scope_rows rows))
        (Uniform-read (λ x. order_by_id (scan s x.project_catalog))
          (ap order_by_id (sym (same.catalog s e))))
        (λ rows. Uniform-pure (in_scope_rows rows)))

  is_in_scope-Uniform : (p : ℕ) → Uniform t u (is_in_scope p)
  unfolding is_in_scope
  is_in_scope-Uniform p = current_then-Uniform same (is_in_scope_of p) (Uniform-pure false) (λ s e.
      Uniform-bind _ (λ row. pure (is_some row))
        (Uniform-read (λ x. select s p x.project_catalog)
          (select-eq-get s p t.project_catalog
            ∙ ap (get p) (sym (same.catalog s e))
            ∙ sym (select-eq-get s p u.project_catalog)))
        (λ row. Uniform-pure (is_some row)))

  -- On two stores whose tables have the same view, both open or both closed and with the same
  -- faults to come, list_in_scope and is_in_scope give the same value or raise the same
  -- exception.
  pub catalog_answers-SameView :
      (p : ℕ) (b : Bool) (fs : List (Option Error))
      → (answer (list_in_scope (store t b fs)) ≡ answer (list_in_scope (store u b fs)))
        × (answer (is_in_scope p (store t b fs)) ≡ answer (is_in_scope p (store u b fs)))
  catalog_answers-SameView p b fs = (
    answer_of_Alike (list_in_scope-Uniform.at b fs),
    answer_of_Alike ((is_in_scope-Uniform p).at b fs),
  )

-- The path of a project in an answer.
abbrev pub path_of : ℕ → List InScopeProject → Option String
path_of p [] = none
path_of p (q ∷ qs) = if q.gitlab_project_id == p then some q.full_path else path_of p qs

abbrev pub IsAbove : ℕ → List InScopeProject → Type 0
IsAbove n [] = Unit {0}
IsAbove n (q ∷ qs) = (n < q.gitlab_project_id) × IsAbove n qs

-- Strictly ascending by project id.
abbrev pub IsAscending : List InScopeProject → Type 0
IsAscending [] = Unit {0}
IsAscending (q ∷ qs) = IsAbove q.gitlab_project_id qs × IsAscending qs

path_of-in_scope_rows : (p : ℕ) (l : List (ℕ × String)) → path_of p (in_scope_rows l) ≡ get p l
unfolding get
path_of-in_scope_rows p [] = refl
path_of-in_scope_rows p ((q, path) ∷ l) = rw (path_of-in_scope_rows p l) refl

in_scope_rows-IsAbove : (n : ℕ) (l : List (ℕ × String)) → Above n l → IsAbove n (in_scope_rows l)
in_scope_rows-IsAbove n [] h = tt
in_scope_rows-IsAbove n ((q, path) ∷ l) (h, hs) = (h, in_scope_rows-IsAbove n l hs)

in_scope_rows-IsAscending : (l : List (ℕ × String)) → Ascending l → IsAscending (in_scope_rows l)
in_scope_rows-IsAscending [] h = tt
in_scope_rows-IsAscending ((q, path) ∷ l) (h, hs) =
    (in_scope_rows-IsAbove q l h, in_scope_rows-IsAscending l hs)

module _ (s : ℕ) (t : Tables) (current : t.current_snapshot ≡ some (some s)) where
  listed :
      list_in_scope (healthy t)
      ≡ returned (in_scope_rows (order_by_id (scan s t.project_catalog))) (healthy t)
  unfolding list_in_scope ◌>>=◌ execute get_current_snapshot_id read_guard catch
  listed = rw current refl

  pub is_in_scope-healthy :
      (p : ℕ)
      → is_in_scope p (healthy t)
        ≡ returned (is_some (get p (scan s t.project_catalog))) (healthy t)
  unfolding is_in_scope ◌>>=◌ execute get_current_snapshot_id read_guard catch
  is_in_scope-healthy p = rw (current, select-eq-get s p t.project_catalog) refl

  -- On an open store without faults, with well-formed tables and a pointer that names a snapshot,
  -- list_in_scope returns a list that ascends strictly by project id and has for every id the
  -- path that the catalog of that snapshot binds it to, or none, and is_in_scope answers of every
  -- id whether the list has it. Both leave the store as it was.
  pub in_scope_healthy :
      IsValid t
      → (ps : List InScopeProject) × (list_in_scope (healthy t) ≡ returned ps (healthy t))
        × IsAscending ps
        × ((p : ℕ)
            → (path_of p ps ≡ get p (scan s t.project_catalog))
              × (is_in_scope p (healthy t) ≡ returned (is_some (path_of p ps)) (healthy t)))
  in_scope_healthy valid =
      let rows = order_by_id (scan s t.project_catalog) in
      let distinct = valid.catalog_distinct s in
      let same = λ (p : ℕ).
        path_of-in_scope_rows p rows ∙ get-order_by_id p (scan s t.project_catalog) distinct in
      (
        in_scope_rows rows,
        listed,
        in_scope_rows-IsAscending rows (Ascending-order_by_id (scan s t.project_catalog) distinct),
        λ p. (same p, rw (same p) (is_in_scope-healthy p)),
      )
