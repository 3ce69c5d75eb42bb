-- ===== src/Store/Rows/Copy.antt =====
-- INSERT INTO ... SELECT of src/project_knowledge_mcp/knowledge_store.py, under a snapshot that
-- has no rows yet.
use mathlib.Core.List.{append-nil, append_assoc}
use gitlab_knowledege.Common.{
  ℕ, ◌≡◌, ◌≢◌, refl, sym, ◌∙◌, none, some, List, [], ◌∷◌, ◌++◌, arith, ==-refl, ==_of_ne,
}
use gitlab_knowledege.Store.Rows.{Row, row, scan, select, insert_rows, insert_select}
use gitlab_knowledege.Store.Rows.Laws.{
  get, Distinct, select-eq-get, scan-append_row, get-append_one,
}

module _ {ℓ} {V : Type ℓ} where
  -- No project of `l` has a row in `acc`.
  abbrev Fresh : List (ℕ × V) → List (ℕ × V) → Type ℓ
  Fresh acc [] = Unit
  Fresh acc ((p, v) ∷ l) = (get p acc ≡ none) × Fresh acc l

  Fresh-nil : (l : List (ℕ × V)) → Fresh [] l
  unfolding get
  Fresh-nil [] = tt
  Fresh-nil ((p, v) ∷ l) = (refl, Fresh-nil l)

  Fresh-append_one :
      (p : ℕ) (v : V) (acc l : List (ℕ × V))
      → get p l ≡ none
      → Fresh acc l
      → Fresh (acc ++ (p, v) ∷ []) l
  unfolding get
  Fresh-append_one p v acc [] h f = tt
  Fresh-append_one p v acc ((q, w) ∷ l) h f =
      (get-append_one p q v acc f.0 (ground arith), Fresh-append_one p v acc l (ground arith) f.1)

  insert_rows_step :
      (new p : ℕ) (v : V) (l : List (ℕ × V)) (t : List (Row V))
      → select new p t ≡ none
      → insert_rows new ((p, v) ∷ l) t ≡ insert_rows new l (t ++ row new p v ∷ [])
  unfolding insert_rows
  insert_rows_step new p v l t h = ground arith

  insert_rows_total :
      (new : ℕ) (l : List (ℕ × V)) (t : List (Row V))
      → Distinct l
      → Fresh (scan new t) l
      → (t' : List (Row V)) × (insert_rows new l t ≡ some t')
        × (scan new t' ≡ scan new t ++ l)
        × ((s : ℕ) → new ≢ s → scan s t' ≡ scan s t)
  unfolding insert_rows
  insert_rows_total new [] t d f = (t, refl, sym (append-nil (scan new t)), λ s _. refl)
  insert_rows_total new ((p, v) ∷ l) t d f =
      let t₁ = t ++ row new p v ∷ [] in
      let grown : scan new t₁ ≡ scan new t ++ (p, v) ∷ [] =
        rw (scan-append_row new new p v t, ==-refl new) in
      let (t', done, mine, others) =
        insert_rows_total new l t₁ d.1 (rw grown (Fresh-append_one p v (scan new t) l d.0 f.1)) in
      (
        t',
        insert_rows_step new p v l t (select-eq-get new p t ∙ f.0) ∙ done,
        mine ∙ rw grown (append_assoc (scan new t) ((p, v) ∷ []) l),
        λ s ne. others s ne ∙ rw (scan-append_row new s p v t, ==_of_ne new s ne) (append-nil _),
      )

  pub insert_select_total :
      (new parent : ℕ) (t : List (Row V))
      → Distinct (scan parent t)
      → scan new t ≡ []
      → (t' : List (Row V)) × (insert_select new parent t ≡ some t')
        × (scan new t' ≡ scan parent t)
        × ((s : ℕ) → new ≢ s → scan s t' ≡ scan s t)
  unfolding insert_select
  insert_select_total new parent t d empty =
      let (t', done, mine, others) =
        insert_rows_total new (scan parent t) t d (rw empty (Fresh-nil (scan parent t))) in
      (t', done, mine ∙ rw empty, others)
