-- ===== src/Connector/Contents.antt =====
-- `fetch_repository_contents` of src/project_knowledge_mcp/gitlab_connector.py. The files are a
-- mapping in the order of its insertions. The worker threads' requests are taken one after the
-- other, in the order in which `executor.map` gives their results.
use gitlab_knowledege.Common.{
  ℕ, Bool, true, false, ◌&&◌, Option, some, none, List, [], ◌∷◌, ◌++◌, String, Text, codes, ◌==◌,
  ltb, eq_text, if◌then◌else◌, decimal, length,
}
use gitlab_knowledege.Exec.{value_error, other, Exec, pure, raise, ◌>>=◌, ◌>>◌}
use gitlab_knowledege.Connector.Client.{
  Params, Response, Library, GitLabConnector, get, raise_for_auth, raise_for_status, paginate,
}
use gitlab_knowledege.Connector.Paths.{is_empty_path}
use gitlab_knowledege.Connector.Selection.{capped_paths}

abbrev pub Files : Type 0
Files = List (Text × Text)

-- `RepositoryContents`, with its texts as code points.
pub record FetchedContents : Type 0 where
  pub project_id : ℕ
  pub commit_sha : Text
  pub files : Files

abbrev pub max_file_size_bytes : ℕ
max_file_size_bytes = 1048576

-- `files[path] = text`
unfoldable pub put_file : Text → Text → Files → Files
put_file path text [] = (path, text) ∷ []
put_file path text ((p, t) ∷ files) =
    let rest = put_file path text files in
    if eq_text p path then (p, text) ∷ files else (p, t) ∷ rest

unfoldable pub put_if_text : Text → Option Text → Files → Files
unfolding put_file
put_if_text path none files = files
put_if_text path (some text) files = put_file path text files

module _ {W J : Type 0} (lib : Library W J) (c : GitLabConnector) where
  abbrev pub string_at : String → J → Option String
  string_at key entry = elim (lib.field key entry) [ none ↦ none | some v ↦ lib.string_of v ]

  abbrev pub is_blob : Option String → Bool
  is_blob none = false
  is_blob (some kind) = eq_text (codes kind) (codes "blob")

  abbrev pub add_path : Option String → List Text → List Text
  add_path none paths = paths
  add_path (some path) paths = if is_empty_path (codes path) then paths else codes path ∷ paths

  -- The loop of `_collect_analyzable_paths` over the entries of the tree.
  unfoldable pub blob_paths : List J → List Text
  blob_paths [] = []
  blob_paths (entry ∷ entries) =
      let rest = blob_paths entries in
      if is_blob (string_at "type" entry) then add_path (string_at "path" entry) rest else rest

  abbrev pub all_dicts : List J → Bool
  all_dicts [] = true
  all_dicts (entry ∷ entries) = lib.is_dict entry && all_dicts entries

  -- `entry.get` of an entry that is no dict raises.
  unfoldable pub collect_blob_paths : List J → Exec W (List Text)
  unfolding blob_paths
  collect_blob_paths entries =
      if all_dicts entries then pure (blob_paths entries) else raise (other "AttributeError")

  abbrev pub tree_params : Text → Params
  tree_params commit_sha = ("ref", commit_sha) ∷ ("recursive", codes "true") ∷ []

  unfoldable pub tree_entries : ℕ → ℕ → Text → Exec W (Option (List J))
  unfolding paginate
  tree_entries fuel project_id commit_sha =
      paginate lib c fuel
        (codes "projects/" ++ codes (decimal project_id) ++ codes "/repository/tree")
        (tree_params commit_sha)

  -- The answer to a request for a file.
  unfoldable pub text_of_body : List ℕ → Option Text
  text_of_body body = if ltb max_file_size_bytes (length body) then none else lib.decode body

  unfoldable pub read_blob : Response J → Exec W (Option Text)
  unfolding ◌>>=◌ raise_for_auth raise_for_status text_of_body
  read_blob response = do
    raise_for_auth lib c response
    let text = do raise_for_status lib c response; pure (text_of_body response.content)
    if response.status_code == 404 then pure none else text

  unfoldable pub raw_path : ℕ → Text → Text
  raw_path project_id path =
      codes "projects/"
      ++ codes (decimal project_id)
      ++ codes "/repository/files/"
      ++ lib.quote path
      ++ codes "/raw"

  unfoldable pub fetch_blob_text : ℕ → Text → Text → Exec W (Option Text)
  unfolding ◌>>=◌ get read_blob raw_path
  fetch_blob_text project_id path commit_sha = do
    response ← get lib c (raw_path project_id path) (("ref", commit_sha) ∷ [])
    read_blob response

  unfoldable pub fetch_blobs : ℕ → Text → List Text → Files → Exec W Files
  unfolding ◌>>=◌ fetch_blob_text put_if_text
  fetch_blobs project_id commit_sha [] files = pure files
  fetch_blobs project_id commit_sha (path ∷ paths) files = do
    text ← fetch_blob_text project_id path commit_sha
    fetch_blobs project_id commit_sha paths (put_if_text path text files)

  -- The contents, of which the model wants a commit SHA that is not empty.
  unfoldable pub contents_with : ℕ → Text → Files → Exec W (Option FetchedContents)
  contents_with project_id commit_sha files =
      let contents : FetchedContents = record {
        project_id = project_id;
        commit_sha = commit_sha;
        files = files;
      } in
      if is_empty_path commit_sha then raise value_error else pure (some contents)

  unfoldable pub contents_of : ℕ → Text → Option (List J) → Exec W (Option FetchedContents)
  unfolding ◌>>=◌ fetch_blobs collect_blob_paths capped_paths contents_with
  contents_of project_id commit_sha none = pure none
  contents_of project_id commit_sha (some entries) = do
    paths ← collect_blob_paths entries
    files ← fetch_blobs project_id commit_sha (capped_paths lib.lower paths) []
    contents_with project_id commit_sha files

  unfoldable pub fetch_repository_contents : ℕ → ℕ → Text → Exec W (Option FetchedContents)
  unfolding ◌>>=◌ tree_entries contents_of
  fetch_repository_contents fuel project_id commit_sha = do
    entries ← tree_entries fuel project_id commit_sha
    contents_of project_id commit_sha entries
