-- ===== src/Connector/Selection.antt =====
-- Which files of a repository are fetched: the end of `_collect_analyzable_paths` and the cap of
-- `fetch_repository_contents` in src/project_knowledge_mcp/gitlab_connector.py.
pub mod Order
pub mod Laws
use gitlab_knowledege.Common.{
  ℕ, zero, suc, Bool, true, false, List, [], ◌∷◌, Text, codes, ltb, member_of, if◌then◌else◌,
}
use gitlab_knowledege.Connector.Paths.{is_analyzable_path, is_analyzable_path_for_go}

-- `<=` on texts
unfoldable pub leb_text : Text → Text → Bool
leb_text [] t = true
leb_text (c ∷ s) [] = false
leb_text (c ∷ s) (d ∷ t) =
    let rest = leb_text s t in if ltb c d then true else if ltb d c then false else rest

unfoldable pub insert_text : Text → List Text → List Text
insert_text t [] = t ∷ []
insert_text t (u ∷ us) =
    let rest = insert_text t us in if leb_text t u then t ∷ u ∷ us else u ∷ rest

-- `paths.sort()`
unfoldable pub sort_texts : List Text → List Text
unfolding insert_text
sort_texts [] = []
sort_texts (t ∷ ts) = insert_text t (sort_texts ts)

unfoldable pub admit_all : (Text → Bool) → List Text → List Text
admit_all admit [] = []
admit_all admit (p ∷ ps) = let rest = admit_all admit ps in if admit p then p ∷ rest else rest

-- `paths[:n]`
unfoldable pub first_of : ℕ → List Text → List Text
first_of zero ps = []
first_of (suc n) [] = []
first_of (suc n) (p ∷ ps) = p ∷ first_of n ps

abbrev pub max_analyzable_files : ℕ
max_analyzable_files = 5000

module _ (lower : Text → Text) where
  -- The filter, by the shape of the project.
  unfoldable pub admission : List Text → Text → Bool
  admission blob_paths =
      if member_of (codes "go.mod") blob_paths
      then is_analyzable_path_for_go lower
      else is_analyzable_path lower

  unfoldable pub choose_paths : List Text → List Text
  unfolding sort_texts admit_all admission
  choose_paths blob_paths = sort_texts (admit_all (admission blob_paths) blob_paths)

  unfoldable pub capped_paths : List Text → List Text
  unfolding first_of choose_paths
  capped_paths blob_paths = first_of max_analyzable_files (choose_paths blob_paths)
