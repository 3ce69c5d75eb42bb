-- ===== src/Store/Rows/Laws.antt =====
-- The statements on a snapshot-scoped table, against the association list of each snapshot.
use gitlab_knowledege.Common.{
  ℕ, ◌≡◌, ◌≢◌, refl, Option, none, some, List, [], ◌∷◌, ◌++◌, arith, ◌==◌, if◌then◌else◌, ==_iff,
}
use gitlab_knowledege.Store.Rows.{Row, row, scan, select, upsert}

module _ {ℓ} {V : Type ℓ} where
  -- The cells of a project in the rows of one snapshot.
  unfoldable pub get : ℕ → List (ℕ × V) → Option V
  get p [] = none
  get p ((q, v) ∷ l) = if q == p then some v else get p l

  unfoldable pub put : ℕ → V → List (ℕ × V) → List (ℕ × V)
  put p v [] = (p, v) ∷ []
  put p v ((q, w) ∷ l) = if q == p then (p, v) ∷ l else (q, w) ∷ put p v l

  -- No project twice.
  abbrev pub Distinct : List (ℕ × V) → Type ℓ
  Distinct [] = Unit
  Distinct ((p, v) ∷ l) = (get p l ≡ none) × Distinct l

  pub select-eq-get : (s p : ℕ) (t : List (Row V)) → select s p t ≡ get p (scan s t)
  unfolding select get scan
  select-eq-get s p [] = refl
  select-eq-get s p (r ∷ t) = ground (arith, select-eq-get s p t)

  pub get-put :
      (p q : ℕ) (v : V) (l : List (ℕ × V))
      → get q (put p v l) ≡ (if p == q then some v else get q l)
  unfolding get put
  get-put p q v [] = refl
  get-put p q v ((r, w) ∷ l) = ground (arith, get-put p q v l)

  pub scan-upsert_self :
      (s p : ℕ) (v : V) (t : List (Row V)) → scan s (upsert s p v t) ≡ put p v (scan s t)
  unfolding scan upsert put
  scan-upsert_self s p v [] = ground arith
  scan-upsert_self s p v (r ∷ t) = ground (arith, scan-upsert_self s p v t)

  pub scan-upsert_ne :
      (s u p : ℕ) (v : V) (t : List (Row V)) → s ≢ u → scan u (upsert s p v t) ≡ scan u t
  unfolding scan upsert
  scan-upsert_ne s u p v [] h = ground arith
  scan-upsert_ne s u p v (r ∷ t) h = ground (arith, scan-upsert_ne s u p v t)

  pub put-Distinct : (p : ℕ) (v : V) (l : List (ℕ × V)) → Distinct l → Distinct (put p v l)
  unfolding get put
  put-Distinct p v [] h = (refl, tt)
  put-Distinct p v ((q, w) ∷ l) h = ground (arith, put-Distinct p v l, get-put p q v l, ==_iff q p)

  pub scan-append_row :
      (s u p : ℕ) (v : V) (t : List (Row V))
      → scan u (t ++ row s p v ∷ []) ≡ scan u t ++ (if s == u then (p, v) ∷ [] else [])
  unfolding scan
  scan-append_row s u p v [] = ground arith
  scan-append_row s u p v (r ∷ t) = ground (arith, scan-append_row s u p v t)

  pub get-append_one :
      (p q : ℕ) (v : V) (l : List (ℕ × V))
      → get q l ≡ none
      → p ≢ q
      → get q (l ++ (p, v) ∷ []) ≡ none
  unfolding get
  get-append_one p q v [] h ne = ground arith
  get-append_one p q v ((r, w) ∷ l) h ne = ground (arith, get-append_one p q v l)
