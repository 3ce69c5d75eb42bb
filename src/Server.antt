-- ===== src/Server.antt =====
-- The MCP server of src/project_knowledge_mcp/mcp_server.py: tools, results and the registry. `J` is
-- the type of decoded JSON objects; the dicts of the server are lists in the order of insertion.
pub mod Handlers
pub mod Dispatch
pub mod Replies
pub mod Registry
pub mod Shown
pub mod Reads
use Prim.Native.String.{◌++◌}
use gitlab_knowledege.Common.{
  ℕ, Bool, true, false, Option, none, some, List, [], ◌∷◌, String, codes, eq_text, if◌then◌else◌,
  decimal,
}
use gitlab_knowledege.Exec.{
  Error, store_unavailable, gitlab_auth, gitlab_group_not_found, ingestion_in_progress,
  project_not_in_scope, value_error, Exec, returned, raised,
}
use gitlab_knowledege.Models.{
  ProjectProfile, AbstractInput, AbstractOutput, ExternalServiceDependency, DatabaseTableDependency,
}
use gitlab_knowledege.Catalog.{InScopeProject}

abbrev pub same_name : String → String → Bool
same_name a b = eq_text (codes a) (codes b)

-- `d.get(name)`
unfoldable pub look_up : {A : Type 0} → String → List (String × A) → Option A
look_up name [] = none
look_up name ((n, a) ∷ d) = if same_name n name then some a else look_up name d

pub data Schema : Type 0 where
  no_args_input_schema gitlab_project_id_input_schema : Schema

pub record Tool : Type 0 where
  pub name : String
  pub description : String
  pub input_schema : Schema

abbrev pub with_no_args : String → String → Tool
with_no_args name description = record {
  name = name;
  description = description;
  input_schema = no_args_input_schema;
}

abbrev pub with_project_id : String → String → Tool
with_project_id name description = record {
  name = name;
  description = description;
  input_schema = gitlab_project_id_input_schema;
}

abbrev pub built_in_tools : List Tool
built_in_tools =
    with_no_args "list_projects"
      "Return all in-scope projects with their GitLab project ID and full path."
    ∷ with_project_id "get_project_purpose"
        "Return the purpose summary for a project identified by its GitLab project ID."
    ∷ with_project_id "get_project_io"
        "Return the abstract inputs and abstract outputs for a project identified by its GitLab project ID."
    ∷ with_project_id "get_project_dependencies"
        "Return the external service dependencies and database table dependencies for a project identified by its GitLab project ID."
    ∷ with_project_id "get_project_profile"
        "Return the full Project_Profile for a project identified by its GitLab project ID."
    ∷ with_no_args "list_purpose_conflicts"
        "Return the list of all project pairs whose purpose summaries indicate a Purpose_Conflict."
    ∷ with_no_args "refresh_all_projects"
        "Trigger an Ingestion_Job that refreshes every in-scope project."
    ∷ with_project_id "refresh_project"
        "Trigger an Ingestion_Job that refreshes a single project identified by its GitLab project ID."
    ∷ []

-- `_TOOL_BY_NAME`
abbrev pub by_name : List Tool → List (String × Tool)
by_name [] = []
by_name (t ∷ ts) = (t.name, t) ∷ by_name ts

-- An error of jsonschema: the path to the value, its segments as texts, the rule, and the value of
-- the rule if that is a list, with the strings in it.
pub record ValidationError : Type 0 where
  pub absolute_path : List String
  pub validator : Option String
  pub validator_value : Option (List (Option String))

-- The fields of the dict of a conflict; its justification is a list of code points.
pub data Cell : Type 0 where
  id : ℕ → Cell
  words : List ℕ → Cell

-- The values of a payload: `J` where a model has dumped itself.
pub data Value (J : Type 0) : Type 0 where
  number : ℕ → Value J
  text : String → Value J
  null : Value J
  objects : List J → Value J
  dicts : List (List (String × Cell)) → Value J

pub data Payload (J : Type 0) : Type 0 where
  fields : List (String × Value J) → Payload J
  dumped : J → Payload J

pub record CallToolResult (J : Type 0) : Type 0 where
  pub content : String
  pub structured_content : Option (Payload J)
  pub is_error : Bool

-- What the server uses of jsonschema, json, pydantic and Python. `message` is the text of an
-- exception that errors.py does not declare.
pub record Sdk (J : Type 0) : Type 0 where
  pub validate : J → Schema → Option ValidationError
  pub empty : J
  pub argument : String → J → Option J
  pub int : J → Option ℕ
  pub dumps : Payload J → String
  pub dump_project : InScopeProject → J
  pub dump_input : AbstractInput → J
  pub dump_output : AbstractOutput → J
  pub dump_service : ExternalServiceDependency → J
  pub dump_table : DatabaseTableDependency → J
  pub dump_profile : ProjectProfile → J
  pub message : Error → String

module _ {J : Type 0} (sdk : Sdk J) where
  abbrev pub unavailable : String → String
  unavailable String.[] = "Knowledge_Store unavailable"
  unavailable (String.◌∷◌ x s) = "Knowledge_Store unavailable: " ++ String.◌∷◌ x s

  -- `str` of an exception
  unfoldable pub message_of : Error → String
  message_of (store_unavailable reason) = unavailable reason
  message_of (gitlab_auth status) = "GitLab authentication failed (HTTP " ++ decimal status ++ ")"
  message_of (gitlab_group_not_found group_path) = "GitLab group '" ++ group_path ++ "' not found"
  message_of ingestion_in_progress = "Ingestion_Job is already in progress"
  message_of (project_not_in_scope p) = "Project " ++ decimal p ++ " is not in scope"
  message_of e = sdk.message e

  abbrev pub is_absent : Option J → Bool
  is_absent none = true
  is_absent (some v) = false

  -- The loop of `_failing_argument_name` over the required names.
  unfoldable pub first_absent : J → List (Option String) → String
  first_absent instance_ [] = ""
  first_absent instance_ (none ∷ names) = first_absent instance_ names
  first_absent instance_ (some name ∷ names) =
      let rest = first_absent instance_ names in
      if is_absent (sdk.argument name instance_) then name else rest

  abbrev pub is_required : Option String → Bool
  is_required none = false
  is_required (some rule) = same_name rule "required"

  abbrev pub absent_of : J → Option (List (Option String)) → String
  absent_of instance_ none = ""
  absent_of instance_ (some names) = first_absent instance_ names

  abbrev pub argument_at : List String → String → String
  argument_at [] name = name
  argument_at (segment ∷ path) name = segment

  unfoldable pub failing_argument_name : ValidationError → J → String
  unfolding first_absent
  failing_argument_name exc instance_ =
      argument_at exc.absolute_path
        (if is_required exc.validator then absent_of instance_ exc.validator_value else "")

  abbrev pub validation_rule_name : ValidationError → String
  validation_rule_name exc = elim exc.validator [ none ↦ "" | some rule ↦ rule ]

  unfoldable pub structured_result : Payload J → CallToolResult J
  structured_result payload = record {
    content = sdk.dumps payload;
    structured_content = some payload;
    is_error = false;
  }

abbrev pub error_result : {J : Type 0} → String → CallToolResult J
error_result message = record { content = message; structured_content = none; is_error = true }

abbrev pub not_in_scope_result : {J : Type 0} → ℕ → CallToolResult J
not_in_scope_result p = error_result ("project " ++ decimal p ++ " is not in scope")

abbrev pub not_yet_analyzed_result : {J : Type 0} → ℕ → CallToolResult J
not_yet_analyzed_result p = record {
  content =
      "project "
      ++ decimal p
      ++ " has not yet been analyzed; "
      ++ "run an Ingestion_Job to populate its profile";
  structured_content = none;
  is_error = false;
}

abbrev pub Handler : Type 0 → Type 0 → Type 0
Handler W J = J → Exec W (CallToolResult J)

pub record McpServer (W J : Type 0) : Type 0 where
  pub tools : List (String × Tool)
  pub tool_handlers : List (String × Handler W J)

abbrev pub is_found : {A : Type 0} → Option A → Bool
is_found none = false
is_found (some a) = true

-- `name in tools`
abbrev pub has_tool : List (String × Tool) → String → Bool
has_tool tools name = is_found (look_up name tools)

-- `d[name] = a`
unfoldable pub put : {A : Type 0} → List (String × A) → String → A → List (String × A)
put [] name a = (name, a) ∷ []
put ((n, b) ∷ d) name a =
    let rest = put d name a in if same_name n name then (n, a) ∷ d else (n, b) ∷ rest

unfoldable pub register_tool : {W J : Type 0} → Tool → Handler W J → Exec (McpServer W J) (Unit {0})
unfolding look_up put
register_tool tool handler server =
    if has_tool server.tools tool.name
    then raised value_error server
    else returned tt (record {
      tools = put server.tools tool.name tool;
      tool_handlers = put server.tool_handlers tool.name handler;
    })
