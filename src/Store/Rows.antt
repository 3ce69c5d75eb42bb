-- ===== src/Store/Rows.antt =====
-- A snapshot-scoped table of the schema in src/project_knowledge_mcp/knowledge_store.py: rows with
-- the primary key (snapshot_id, gitlab_project_id), and the statements that the code runs on them.
pub mod Laws
pub mod Order
pub mod Copy
use gitlab_knowledege.Common.{
  ℕ, Bool, ◌&&◌, Option, none, some, List, [], ◌∷◌, ◌++◌, map, ltb, ◌==◌, if◌then◌else◌,
}

pub record Row {ℓ} (V : Type ℓ) : Type ℓ where
  pub snapshot_id : ℕ
  pub gitlab_project_id : ℕ
  pub cells : V

module _ {ℓ} {V : Type ℓ} where
  abbrev pub row : ℕ → ℕ → V → Row V
  row s p v = record { snapshot_id = s; gitlab_project_id = p; cells = v }

  -- SELECT gitlab_project_id, cells WHERE snapshot_id = s
  unfoldable pub scan : ℕ → List (Row V) → List (ℕ × V)
  scan s [] = []
  scan s (r ∷ t) =
      if r.snapshot_id == s then (r.gitlab_project_id, r.cells) ∷ scan s t else scan s t

  -- SELECT cells WHERE snapshot_id = s AND gitlab_project_id = p
  unfoldable pub select : ℕ → ℕ → List (Row V) → Option V
  select s p [] = none
  select s p (r ∷ t) =
      if (r.snapshot_id == s) && (r.gitlab_project_id == p) then some r.cells else select s p t

  -- INSERT ... ON CONFLICT(snapshot_id, gitlab_project_id) DO UPDATE
  unfoldable pub upsert : ℕ → ℕ → V → List (Row V) → List (Row V)
  upsert s p v [] = row s p v ∷ []
  upsert s p v (r ∷ t) =
      if (r.snapshot_id == s) && (r.gitlab_project_id == p)
      then row s p v ∷ t
      else r ∷ upsert s p v t

  -- Plain INSERTs of rows under `new`, one by one; `none` is a violation of the primary key.
  unfoldable pub insert_rows : ℕ → List (ℕ × V) → List (Row V) → Option (List (Row V))
  insert_rows new [] t = some t
  insert_rows new ((p, v) ∷ l) t =
      let rest = insert_rows new l (t ++ row new p v ∷ []) in
      elim (select new p t) [ none ↦ rest | some _ ↦ none ]

  -- INSERT INTO t SELECT new, ... FROM t WHERE snapshot_id = parent
  unfoldable pub insert_select : ℕ → ℕ → List (Row V) → Option (List (Row V))
  insert_select new parent t = insert_rows new (scan parent t) t

  unfoldable pub insert_by_id : ℕ × V → List (ℕ × V) → List (ℕ × V)
  insert_by_id e [] = e ∷ []
  insert_by_id e (f ∷ l) = if ltb e.0 f.0 then e ∷ f ∷ l else f ∷ insert_by_id e l

  -- ORDER BY gitlab_project_id ASC
  unfoldable pub order_by_id : List (ℕ × V) → List (ℕ × V)
  order_by_id [] = []
  order_by_id (e ∷ l) = insert_by_id e (order_by_id l)
