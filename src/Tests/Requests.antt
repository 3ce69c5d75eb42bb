-- ===== src/Tests/Requests.antt =====
-- Runs of the connector against servers that are functions.
use mathlib.Core.List.Perm
use gitlab_knowledege.Common.{
  decimal, ℕ, ◌≡◌, refl, ◌==◌, Bool, true, false, not, ◌&&◌, ◌||◌, Option, some, none, List, [],
  ◌∷◌, ◌++◌, map, String, Text, codes, eq_text, member_of, occurs_in, if◌then◌else◌, arith,
}
use gitlab_knowledege.Exec.{returned, raised, gitlab_auth}
use gitlab_knowledege.Connector.Paths.{
  is_analyzable_path, is_analyzable_path_for_go, is_go_source_file, starts_readme, last_segment,
  forward_slashes, directories, ends_with,
}
use gitlab_knowledege.Connector.Paths.Agree.{go_rules_agree}
use gitlab_knowledege.Connector.Urls.{build_url, parse_link_next}
use gitlab_knowledege.Connector.Urls.Laws.{
  build_url_spellings, header, first_next, IsSpacing, parse_link_next-header,
}
use gitlab_knowledege.Connector.Selection.{capped_paths, leb_text}
use gitlab_knowledege.Connector.Selection.Laws.{capped_paths-perm}
use gitlab_knowledege.Connector.Client.{
  Params, Response, Library, GitLabConnector, paginate, items_from_response, with_page_size, get,
  page_params, put_param,
}
use gitlab_knowledege.Connector.Projects.{enumerate_projects}
use gitlab_knowledege.Connector.Denied.{StopsAtDenial, Logs, enumerate_projects-StopsAtDenial}
use gitlab_knowledege.Connector.Pages.{
  Numbered, empty, Refuses, concat, paginate_all, refused_tree_is_empty,
}
use gitlab_knowledege.Connector.Contents.{
  FetchedContents, fetch_repository_contents, tree_entries, blob_paths,
}
use gitlab_knowledege.Connector.Fetched.{IsFetched, fetch_repository_contents-IsFetched}

-- A few decoded values.
data Value : Type 0 where
  word : String → Value
  number : ℕ → Value
  blob : String → Value
  project : ℕ → String → Value
  branch : String → Value

data Json : Type 0 where
  one : Value → Json
  many : List Value → Json

abbrev value_field : String → Value → Option Value
value_field key (blob path) =
    if eq_text (codes key) (codes "type") then some (word "blob") else some (word path)
value_field key (project id path) =
    if eq_text (codes key) (codes "id")
    then some (number id)
    else if eq_text (codes key) (codes "path_with_namespace")
    then some (word path)
    else none
value_field key (branch sha) =
    if eq_text (codes key) (codes "commit") then some (branch sha) else some (word sha)
value_field key _ = none

abbrev as_json : Option Value → Option Json
as_json none = none
as_json (some v) = some (one v)

abbrev json_field : String → Json → Option Json
json_field key (one v) = as_json (value_field key v)
json_field key (many vs) = none

abbrev json_list : Json → Option (List Json)
json_list (one v) = none
json_list (many vs) = some (map one vs)

abbrev json_is_dict : Json → Bool
json_is_dict (one (blob path)) = true
json_is_dict (one (project id path)) = true
json_is_dict (one (branch sha)) = true
json_is_dict _ = false

abbrev json_string : Json → Option String
json_string (one (word s)) = some s
json_string _ = none

abbrev json_number : Json → Option ℕ
json_number (one (number n)) = some n
json_number _ = none

abbrev json_text : Json → String
json_text (one (word s)) = s
json_text _ = ""

-- The world of a server is the statuses that it has answered, the last one first.
abbrev serving : (Text → Params → Response Json) → Library (List ℕ) Json
serving reply = record {
  get = λ url params headers w. returned (reply url params) ((reply url params).status_code ∷ w);
  is_success = λ s. s == 200;
  list_of = json_list;
  is_dict = json_is_dict;
  string_of = json_string;
  field = json_field;
  int = json_number;
  to_string = json_text;
  quote = λ t. t;
  decode = λ body. some body;
  lower = λ t. t;
  is_space = λ c. c == 32;
}

abbrev answer : ℕ → Json → Response Json
answer status payload = record {
  status_code = status;
  link = none;
  json = some payload;
  content = 104 ∷ 105 ∷ [];
}

abbrev connector : GitLabConnector
connector = record {
  base_url = codes "https://gitlab";
  access_token = codes "secret";
  group_path = some "acme";
  analysis_branch = some "uat";
}

-- Two projects, and no access to the branches of the second.
abbrev guarded : Library (List ℕ) Json
guarded = serving λ url params.
    if occurs_in (codes "groups/acme") url
    then answer 200 (many (project 7 "acme/a" ∷ project 9 "acme/b" ∷ []))
    else if occurs_in (codes "projects/7/") url
    then answer 200 (one (branch "f00d"))
    else answer 403 (one (word "forbidden"))

abbrev has_page : Params → Bool
has_page [] = false
has_page ((k, v) ∷ params) = eq_text (codes k) (codes "page") || has_page params

-- One repository, whose tree is one page.
abbrev hosting : Library (List ℕ) Json
hosting = serving λ url params.
    if occurs_in (codes "/repository/tree") url
    then answer 200 (
        many (
          if has_page params
          then []
          else blob "main.go"
            ∷ blob "go.mod"
            ∷ blob "vendor/x.go"
            ∷ blob "readme.md"
            ∷ blob "app.py"
            ∷ []))
    else answer 200 (one (word "raw"))

abbrev refusing : Library (List ℕ) Json
refusing = serving λ url params. answer 401 (one (word "unauthorized"))

abbrev fetched : FetchedContents
fetched = record {
  project_id = 7;
  commit_sha = codes "f00d";
  files =
      (codes "go.mod", codes "hi")
      ∷ (codes "main.go", codes "hi")
      ∷ (codes "readme.md", codes "hi")
      ∷ [];
}

fetched_run :
    fetch_repository_contents hosting connector 3 7 (codes "f00d") []
    ≡ returned (some fetched) (200 ∷ 200 ∷ 200 ∷ 200 ∷ 200 ∷ [])
unfolding fetch_repository_contents build_url decimal is_analyzable_path_for_go leb_text paginate
    parse_link_next
fetched_run = refl

denied_run :
    enumerate_projects guarded connector 3 [] ≡ raised (gitlab_auth 403) (403 ∷ 200 ∷ 200 ∷ [])
unfolding enumerate_projects build_url decimal
denied_run = refl

guarded-Logs : Logs guarded (λ w. w)
guarded-Logs = record {
  answers = λ url params headers w w' r e. cc;
  failures = λ url params headers w w' x e. cc;
}

enumerate_projects-StopsAtDenial_example :
    StopsAtDenial (λ (w : List ℕ). w) (enumerate_projects guarded connector 3 [])
enumerate_projects-StopsAtDenial_example =
    enumerate_projects-StopsAtDenial guarded connector (λ w. w) guarded-Logs 3 [] tt

fetch_repository_contents-IsFetched_example :
    (listed : List Json) × (v : List ℕ) × (tree_entries hosting connector 3 7 (codes "f00d") []
      ≡ returned (some listed) v)
    × (fetched.project_id ≡ 7)
    × (fetched.commit_sha ≡ codes "f00d")
    × IsFetched hosting connector (blob_paths hosting connector listed) fetched.files
fetch_repository_contents-IsFetched_example =
    fetch_repository_contents-IsFetched hosting connector 3 7 (codes "f00d") []
      (200 ∷ 200 ∷ 200 ∷ 200 ∷ 200 ∷ []) fetched fetched_run

abbrev listing : Text
listing = codes "projects/7/repository/tree"

abbrev first_page : Response Json
first_page = answer 200 (
    many
      (blob "main.go" ∷ blob "go.mod" ∷ blob "vendor/x.go" ∷ blob "readme.md" ∷ blob "app.py" ∷ []))

first_answer :
    get hosting connector listing (with_page_size hosting connector []) []
    ≡ returned first_page (200 ∷ [])
unfolding get with_page_size build_url
first_answer = refl

no_more :
    Numbered hosting connector listing
      (with_page_size hosting connector [])
      2
      (200 ∷ [])
      []
      (200 ∷ 200 ∷ [])
unfolding get with_page_size build_url items_from_response page_params put_param
no_more = empty (answer 200 (many [])) refl refl refl

paginate_all_example :
    paginate hosting connector 3 listing [] []
    ≡ returned
        (some (items_from_response hosting connector first_page ++ concat []))
        (200 ∷ 200 ∷ [])
paginate_all_example =
    paginate_all hosting connector 3 listing [] [] (200 ∷ []) (200 ∷ 200 ∷ []) first_page []
      first_answer no_more (omega arith)

refuses : Refuses refusing connector 401
unfolding items_from_response
refuses = record {
  answers = λ url params headers w.
      (answer 401 (one (word "unauthorized")), 401 ∷ w, refl, refl, refl, refl);
}

refused_tree_is_empty_example :
    (v : List ℕ) × (fetch_repository_contents refusing connector 2 7 (codes "f00d") []
      ≡ returned (some (record { project_id = 7; commit_sha = codes "f00d"; files = [] })) v)
refused_tree_is_empty_example =
    refused_tree_is_empty refusing connector 401 1 7 (codes "f00d") [] refl refuses

capped_paths-perm_example :
    capped_paths (λ t. t) (codes "b.py" ∷ codes "a.py" ∷ [])
    ≡ capped_paths (λ t. t) (codes "a.py" ∷ codes "b.py" ∷ [])
capped_paths-perm_example = capped_paths-perm (λ t. t) (Perm.swap (codes "a.py") (codes "b.py") [])

abbrev bundled : Text
bundled = codes "third_party/api/a.go"

bundled_suffix : ends_with (codes ".go") bundled ≡ true
unfolding ends_with
bundled_suffix = refl

go_rules_agree_example :
    (is_analyzable_path (λ t. t) bundled ≡ is_go_source_file bundled)
    × (is_analyzable_path_for_go (λ t. t) bundled ≡ (
        is_go_source_file bundled
        && not (member_of (codes "third_party") (directories (forward_slashes bundled)))
        && (starts_readme (λ t. t) (last_segment (forward_slashes bundled))
            || not (ends_with (codes "_test.go") (last_segment (forward_slashes bundled))))))
go_rules_agree_example = go_rules_agree (λ t. t) bundled bundled_suffix refl

build_url_spellings_example :
    (build_url (codes "https://gitlab") (codes "groups/acme")
      ≡ codes "https://gitlab/api/v4/groups/acme")
    × (build_url (codes "https://gitlab") (codes "/groups/acme")
        ≡ codes "https://gitlab/api/v4/groups/acme")
    × (build_url (codes "https://gitlab") (codes "api/v4/groups/acme")
        ≡ codes "https://gitlab/api/v4/groups/acme")
    × (build_url (codes "https://gitlab") (codes "/api/v4/groups/acme")
        ≡ codes "https://gitlab/api/v4/groups/acme")
build_url_spellings_example =
    build_url_spellings (codes "https://gitlab") (codes "groups/acme") refl refl

abbrev entries : List (Text × Text)
entries = (codes "https://h/1", codes "prev") ∷ (codes "https://h/3", codes "next") ∷ []

spaces : IsSpacing (λ c. c == 32)
spaces = record { space = refl; semicolon = refl; letter = refl }

parse_link_next-header_example :
    parse_link_next (λ c. c == 32) (some (header entries)) ≡ first_next entries
parse_link_next-header_example = parse_link_next-header (λ c. c == 32) spaces entries (omega arith)
