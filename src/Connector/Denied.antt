-- ===== src/Connector/Denied.antt =====
-- The statuses 401 and 403 in the enumeration of src/project_knowledge_mcp/gitlab_connector.py.
pub mod Steps
use gitlab_knowledege.Common.{
  ℕ, zero, suc, ◌+◌, ◌≡◌, refl, Bool, true, false, ◌||◌, Option, some, none, List, [], ◌∷◌, ◌++◌,
  String, Text, ◌==◌, if◌then◌else◌, arith, All, inl, inr, ◌⊎◌, Option-cases,
}
use gitlab_knowledege.Exec.{
  Error, gitlab_auth, gitlab_group_not_found, runtime_error, value_error, other, Outcome, returned,
  raised, Exec, pure, raise, resume, ◌>>=◌,
}
use gitlab_knowledege.Models.{EnumeratedProject}
use gitlab_knowledege.Connector.Client.{
  Params, Response, Library, GitLabConnector, get, get_absolute, raise_for_auth, raise_for_status,
  items_from_response, for_each, follow_links, probe_pages, rest_of_pages, prepend, no_items,
}
use gitlab_knowledege.Connector.Projects.{
  required, json_of, check_status, fetch_branch_sha, project_id_of, build_enumerated_project,
  iter_projects_in_group, enumerated, validate_project, is_valid, project_of, enumerate_configured,
  enumerate_projects,
}
pub use gitlab_knowledege.Connector.Denied.Steps.{Clean, Logs, StopsAtDenial}
use gitlab_knowledege.Connector.Denied.Steps.{
  is_denied, not_missing, Stops, Stops-pure, Stops-raise, Stops-bind, Stops-if, requested,
  denied_check, check_status-Stops,
}

module _ {W J : Type 0} (lib : Library W J) (c : GitLabConnector) (log : W → List ℕ)
    (logs : Logs lib log) where
  abbrev S : {A : Type 0} → Exec W A → Type 0
  S m = Stops log m

  for_each-Stops :
      {A : Type 0} (body : J → Exec W (List A)) (items : List J)
      → ((item : J) → S (body item))
      → S (for_each lib c body items)
  unfolding for_each
  for_each-Stops {A} body [] h = Stops-pure log (List A) []
  for_each-Stops {A} body (item ∷ items) h = Stops-bind log _ _ (h item) λ found.
      Stops-bind log _ _ (for_each-Stops body items h) λ more. Stops-pure log _ (found ++ more)

  module _ {A : Type 0} (body : J → Exec W (List A)) (body_stops : (item : J) → S (body item)) where
    -- Behind a request whose answer is checked first.
    checked :
        (url : Text) (params headers : Params) (k : Response J → Exec W (Option (List A)))
        → ((r : Response J) → S (k r))
        → S (lib.get url params headers >>= λ r. check_status lib c r >>= λ _. k r)
    checked url params headers k h =
        requested lib c log logs url params headers (λ r. check_status lib c r >>= λ _. k r)
          (λ r e.
            Stops-bind log (check_status lib c r) (λ _. k r) (check_status-Stops lib c log logs r e)
              (λ _. h r))
          (λ r w e. denied_check lib c log logs r (λ _. k r) w e)

    page : (r : Response J) → S (for_each lib c body (items_from_response lib c r))
    page r = for_each-Stops body (items_from_response lib c r) body_stops

    prepended : (found : List A) (more : Option (List A)) → S (pure (prepend lib c found more))
    prepended found more = Stops-pure log _ (prepend lib c found more)

    follow_links-Stops :
        (fuel : ℕ) (next : Option Text) → S (follow_links lib c (check_status lib c) body fuel next)
    unfolding follow_links get_absolute
    follow_links-Stops zero none = Stops-pure log _ (some [])
    follow_links-Stops (suc fuel) none = Stops-pure log _ (some [])
    follow_links-Stops zero (some url) = Stops-pure log _ none
    follow_links-Stops (suc fuel) (some url) = checked url _ _ _ λ r.
        Stops-bind log _ _ (page r)
          λ found. Stops-bind log _ _ (follow_links-Stops fuel _) (prepended found)

    probe_pages-Stops :
        (fuel : ℕ) (path : Text) (params : Params) (n : ℕ)
        → S (probe_pages lib c (check_status lib c) body fuel path params n)
    unfolding probe_pages get
    probe_pages-Stops zero path params n = Stops-pure log _ none
    probe_pages-Stops (suc fuel) path params n = checked _ _ _ _ λ r.
        Stops-if log (no_items lib c (items_from_response lib c r)) _ _ (Stops-pure log _ (some []))
          (Stops-bind log _ _ (page r) λ found.
            Stops-bind log _ _ (probe_pages-Stops fuel path params (n + 1)) (prepended found))

    rest_of_pages-Stops :
        (fuel : ℕ) (path : Text) (params : Params) (link : Option Text)
        → S (rest_of_pages lib c (check_status lib c) body fuel path params link)
    unfolding rest_of_pages
    rest_of_pages-Stops fuel path params (some header) = follow_links-Stops fuel _
    rest_of_pages-Stops fuel path params none = probe_pages-Stops fuel path params 2

    iter_projects_in_group-Stops :
        (fuel : ℕ) (group_path : String) → S (iter_projects_in_group lib c fuel group_path body)
    unfolding iter_projects_in_group get
    iter_projects_in_group-Stops fuel group_path =
        requested lib c log logs _ _ _ _
          (λ r e.
            Stops-if log (r.status_code == 404) _ _
              (Stops-raise log _ (gitlab_group_not_found group_path))
              (Stops-bind log _ _ (check_status-Stops lib c log logs r e) λ _.
                Stops-bind log _ _ (page r) λ found.
                  Stops-bind log _ _ (rest_of_pages-Stops fuel _ _ r.link) (prepended found)))
          (λ r w e. rw (not_missing r.status_code e) (denied_check lib c log logs r _ w e))

  required-Stops : (key : String) (payload : J) → S (required lib c key payload)
  unfolding required
  required-Stops key payload = elim (Option-cases (lib.field key payload)) [
    | inl e ↦ rw (e, required) (Stops-raise log J (other "KeyError"))
    | inr (v, e) ↦ rw (e, required) (Stops-pure log J v)
  ]

  json_of-Stops : (r : Response J) → S (json_of lib c r)
  unfolding json_of
  json_of-Stops r = elim (Option-cases r.json) [
    | inl e ↦ rw (e, json_of) (Stops-raise log J value_error)
    | inr (v, e) ↦ rw (e, json_of) (Stops-pure log J v)
  ]

  project_id_of-Stops : (project : J) → S (project_id_of lib c project)
  unfolding project_id_of
  project_id_of-Stops project = Stops-bind log _ _ (required-Stops "id" project) λ raw.
      elim (Option-cases (lib.int raw)) [
        | inl e ↦ rw e (Stops-raise log ℕ value_error)
        | inr (n, e) ↦ rw e (Stops-pure log ℕ n)
      ]

  fetch_branch_sha-Stops :
      (project_id : ℕ) (branch : String) → S (fetch_branch_sha lib c project_id branch)
  unfolding fetch_branch_sha get
  fetch_branch_sha-Stops project_id branch =
      requested lib c log logs _ _ _ _
        (λ r e. Stops-if log (r.status_code == 404) _ _ (Stops-pure log (Option String) none) (
          Stops-bind log _ _ (check_status-Stops lib c log logs r e) λ _.
            Stops-bind log _ _ (json_of-Stops r) λ payload.
              Stops-bind log _ _ (required-Stops "commit" payload) λ commit.
                Stops-bind log _ _ (required-Stops "id" commit)
                  λ sha. Stops-pure log (Option String) (some (lib.to_string sha))))
        (λ r w e. rw (not_missing r.status_code e) (denied_check lib c log logs r _ w e))

  validate_project-Stops : (p : EnumeratedProject) → S (validate_project p)
  unfolding validate_project
  validate_project-Stops p =
      Stops-if log (is_valid p) (pure p) (raise value_error) (Stops-pure log EnumeratedProject p)
        (Stops-raise log EnumeratedProject value_error)

  enumerated-Stops : (branch : String) (project : J) → S (enumerated lib c branch project)
  unfolding enumerated build_enumerated_project
  enumerated-Stops branch project =
      Stops-bind log _ _
        (Stops-bind log _ _ (project_id_of-Stops project) λ project_id.
          Stops-bind log _ _ (required-Stops "path_with_namespace" project) λ full_path.
            Stops-bind log _ _ (fetch_branch_sha-Stops project_id branch) λ sha.
              validate_project-Stops (project_of lib c branch project project_id full_path sha))
        λ found. Stops-pure log (List EnumeratedProject) (found ∷ [])

  configured-Stops :
      (fuel : ℕ) (group branch : Option String) → S (enumerate_configured lib c fuel group branch)
  unfolding enumerate_configured
  configured-Stops fuel (some group) (some branch) =
      iter_projects_in_group-Stops (enumerated lib c branch) (enumerated-Stops branch) fuel group
  configured-Stops fuel (some group) none = Stops-raise log _ runtime_error
  configured-Stops fuel none branch = Stops-raise log _ runtime_error

  -- From a log of answers without 401 and 403, an enumeration either leaves such a log, or raises
  -- the GitLab authentication error with the status of the last answer, which is 401 or 403 and
  -- the only such answer.
  pub enumerate_projects-StopsAtDenial :
      (fuel : ℕ) (w : W) → Clean (log w) → StopsAtDenial log (enumerate_projects lib c fuel w)
  unfolding enumerate_projects
  enumerate_projects-StopsAtDenial fuel =
      (configured-Stops fuel c.group_path c.analysis_branch).holds
