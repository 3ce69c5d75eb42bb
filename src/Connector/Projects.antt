-- ===== src/Connector/Projects.antt =====
-- `enumerate_projects` of src/project_knowledge_mcp/gitlab_connector.py. A generator is run to its
-- end, so its items come back as a list.
use gitlab_knowledege.Common.{
  ℕ, Bool, true, false, Option, some, none, List, [], ◌∷◌, ◌++◌, String, codes, ◌==◌, ◌||◌, ◌&&◌,
  not, if◌then◌else◌, decimal,
}
use gitlab_knowledege.Exec.{
  gitlab_group_not_found, runtime_error, value_error, other, Exec, pure, raise, ◌>>=◌, ◌>>◌,
}
use gitlab_knowledege.Models.{EnumeratedProject}
use gitlab_knowledege.Connector.Client.{
  Params, Response, Library, GitLabConnector, get, raise_for_auth, raise_for_status,
  items_from_response, for_each, rest_of_pages, prepend,
}

abbrev pub is_empty_string : String → Bool
is_empty_string String.[] = true
is_empty_string (String.◌∷◌ x s) = false

-- The validators of `analysis_branch_commit_sha`, the second with `branch_missing`.
abbrev pub sha_fits : Bool → Option String → Bool
sha_fits missing none = missing
sha_fits missing (some sha) = if is_empty_string sha then false else not missing

-- The bounds and validators of the model.
abbrev pub is_valid : EnumeratedProject → Bool
is_valid p =
    not (is_empty_string p.full_path || is_empty_string p.analysis_branch_name)
    && sha_fits p.branch_missing p.analysis_branch_commit_sha

unfoldable pub validate_project : {W : Type 0} → EnumeratedProject → Exec W EnumeratedProject
validate_project p = if is_valid p then pure p else raise value_error

module _ {W J : Type 0} (lib : Library W J) (c : GitLabConnector) where
  -- `payload[key]`
  unfoldable pub required : String → J → Exec W J
  required key payload = elim (lib.field key payload) [
    | none ↦ raise (other "KeyError")
    | some v ↦ pure v
  ]

  unfoldable pub json_of : Response J → Exec W J
  json_of response = elim response.json [ none ↦ raise value_error | some payload ↦ pure payload ]

  unfoldable pub check_status : Response J → Exec W (Unit {0})
  unfolding ◌>>=◌ raise_for_auth raise_for_status
  check_status response = do raise_for_auth lib c response; raise_for_status lib c response

  unfoldable pub fetch_branch_sha : ℕ → String → Exec W (Option String)
  unfolding ◌>>=◌ get check_status json_of required
  fetch_branch_sha project_id branch = do
    response ←
        get lib c
          (codes "projects/"
            ++ codes (decimal project_id)
            ++ codes "/repository/branches/"
            ++ lib.quote (codes branch))
          []
    let found = do
      check_status response
      payload ← json_of response
      commit ← required "commit" payload
      sha ← required "id" commit
      pure (some (lib.to_string sha))
    if response.status_code == 404 then pure none else found

  abbrev pub kept_description : Option String → Option String
  kept_description none = none
  kept_description (some String.[]) = none
  kept_description (some (String.◌∷◌ x s)) = some (String.◌∷◌ x s)

  abbrev pub string_field : Option J → Option String
  string_field none = none
  string_field (some v) = lib.string_of v

  unfoldable pub project_id_of : J → Exec W ℕ
  unfolding ◌>>=◌ required
  project_id_of project_json = do
    raw ← required "id" project_json
    elim (lib.int raw) [ none ↦ raise value_error | some n ↦ pure n ]

  abbrev pub is_none : Option String → Bool
  is_none none = true
  is_none (some sha) = false

  unfoldable pub project_of : String → J → ℕ → J → Option String → EnumeratedProject
  project_of analysis_branch project_json project_id full_path sha = record {
    gitlab_project_id = project_id;
    full_path = lib.to_string full_path;
    analysis_branch_name = analysis_branch;
    analysis_branch_commit_sha = sha;
    branch_missing = is_none sha;
    repository_description = kept_description (string_field (lib.field "description" project_json));
  }

  unfoldable pub build_enumerated_project : String → J → Exec W EnumeratedProject
  unfolding ◌>>=◌ required project_id_of fetch_branch_sha validate_project project_of
  build_enumerated_project analysis_branch project_json = do
    project_id ← project_id_of project_json
    full_path ← required "path_with_namespace" project_json
    sha ← fetch_branch_sha project_id analysis_branch
    validate_project (project_of analysis_branch project_json project_id full_path sha)

  abbrev pub group_params : Params
  group_params =
      ("include_subgroups", codes "true")
      ∷ ("per_page", codes "100")
      ∷ ("order_by", codes "id")
      ∷ ("sort", codes "asc")
      ∷ []

  -- `_iter_projects_in_group`, with the body of the loop that reads it.
  unfoldable pub iter_projects_in_group :
      {A : Type 0} → ℕ → String → (J → Exec W (List A)) → Exec W (Option (List A))
  unfolding ◌>>=◌ get check_status items_from_response for_each rest_of_pages
  iter_projects_in_group fuel group_path body =
      let list_path = codes "groups/" ++ lib.quote (codes group_path) ++ codes "/projects" in
      do
        response ← get lib c list_path group_params
        let pages = do
          check_status response
          found ← for_each lib c body (items_from_response lib c response)
          more ← rest_of_pages lib c check_status body fuel list_path group_params response.link
          pure (prepend lib c found more)
        if response.status_code == 404 then raise (gitlab_group_not_found group_path) else pages

  unfoldable pub enumerated : String → J → Exec W (List EnumeratedProject)
  unfolding ◌>>=◌ build_enumerated_project
  enumerated analysis_branch project_json = do
    project ← build_enumerated_project analysis_branch project_json
    pure (project ∷ [])

  unfoldable pub enumerate_configured :
      ℕ → Option String → Option String → Exec W (Option (List EnumeratedProject))
  unfolding iter_projects_in_group enumerated
  enumerate_configured fuel (some group_path) (some analysis_branch) =
      iter_projects_in_group fuel group_path (enumerated analysis_branch)
  enumerate_configured fuel (some group_path) none = raise runtime_error
  enumerate_configured fuel none branch = raise runtime_error

  unfoldable pub enumerate_projects : ℕ → Exec W (Option (List EnumeratedProject))
  unfolding enumerate_configured
  enumerate_projects fuel = enumerate_configured fuel c.group_path c.analysis_branch
