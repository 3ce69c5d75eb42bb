-- ===== src/Server/Handlers.antt =====
-- The tool handlers of src/project_knowledge_mcp/mcp_server.py, over the world of the refreshes: the
-- catalog, the store and the coordinator of the process.
use gitlab_knowledege.Common.{if◌then◌else◌, ℕ, Option, none, some, List, [], ◌∷◌, String, map}
use gitlab_knowledege.Exec.{
  Error, ingestion_in_progress, project_not_in_scope, value_error, other, Exec, pure, raise, catch,
  ◌>>=◌, ◌>>◌,
}
use gitlab_knowledege.Models.{ProjectProfile}
use gitlab_knowledege.Store.Reader.{get_profile, list_profiles}
use gitlab_knowledege.Catalog.{list_in_scope, is_in_scope}
use gitlab_knowledege.Conflicts.{Interpreter, ConflictPair}
use gitlab_knowledege.Conflicts.Find.{find_all_conflicts}
use gitlab_knowledege.Jobs.{
  Wiring, World, on_store, start_full_refresh, start_single_project_refresh,
}
use gitlab_knowledege.Server.{
  Sdk, Value, Cell, Payload, CallToolResult, Tool, Handler, McpServer, message_of,
  structured_result, error_result, not_in_scope_result, not_yet_analyzed_result, by_name,
  built_in_tools, look_up, register_tool,
}

module _ {E J : Type 0} (sdk : Sdk J) (py : Interpreter) (k : Wiring E) where
  abbrev pub Result : Type 0
  Result = CallToolResult J

  -- `int(arguments["gitlab_project_id"])`
  unfoldable pub project_id_argument : J → Exec (World E) ℕ
  project_id_argument arguments = elim (sdk.argument "gitlab_project_id" arguments) [
    | none ↦ raise (other "KeyError")
    | some v ↦ elim (sdk.int v) [ none ↦ raise value_error | some p ↦ pure p ]
  ]

  unfoldable pub handle_list_projects : J → Exec (World E) Result
  unfolding ◌>>=◌
  handle_list_projects arguments = do
    projects ← on_store list_in_scope
    pure (
        structured_result sdk
          (Payload.fields (("projects", Value.objects (map sdk.dump_project projects)) ∷ [])))

  abbrev pub reason_value : Option String → Value J
  reason_value none = Value.null
  reason_value (some reason) = Value.text reason

  abbrev pub purpose_payload : ProjectProfile → Payload J
  purpose_payload profile = Payload.fields (
      ("gitlab_project_id", Value.number profile.gitlab_project_id)
      ∷ ("purpose_summary", Value.text profile.purpose_summary)
      ∷ ("purpose_summary_reason", reason_value profile.purpose_summary_reason)
      ∷ [])

  abbrev pub io_payload : ProjectProfile → Payload J
  io_payload profile = Payload.fields (
      ("gitlab_project_id", Value.number profile.gitlab_project_id)
      ∷ ("abstract_inputs", Value.objects (map sdk.dump_input profile.abstract_inputs))
      ∷ ("abstract_outputs", Value.objects (map sdk.dump_output profile.abstract_outputs))
      ∷ [])

  abbrev pub dependencies_payload : ProjectProfile → Payload J
  dependencies_payload profile = Payload.fields (
      ("gitlab_project_id", Value.number profile.gitlab_project_id)
      ∷ (
        "external_service_dependencies",
        Value.objects (map sdk.dump_service profile.external_service_dependencies),
      )
      ∷ (
        "database_table_dependencies",
        Value.objects (map sdk.dump_table profile.database_table_dependencies),
      )
      ∷ [])

  abbrev pub profile_payload : ProjectProfile → Payload J
  profile_payload profile = Payload.dumped (sdk.dump_profile profile)

  abbrev pub purpose_reply : ℕ → Option ProjectProfile → Result
  purpose_reply p none = not_yet_analyzed_result p
  purpose_reply p (some profile) = structured_result sdk (purpose_payload profile)

  unfoldable pub handle_get_project_purpose : J → Exec (World E) Result
  unfolding ◌>>=◌ project_id_argument
  handle_get_project_purpose arguments = do
    p ← project_id_argument arguments
    inside ← on_store (is_in_scope p)
    let found = do profile ← on_store (get_profile k.codec p); pure (purpose_reply p profile)
    if inside then found else pure (not_in_scope_result p)

  abbrev pub io_reply : ℕ → Option ProjectProfile → Result
  io_reply p none = not_yet_analyzed_result p
  io_reply p (some profile) = structured_result sdk (io_payload profile)

  unfoldable pub handle_get_project_io : J → Exec (World E) Result
  unfolding ◌>>=◌ project_id_argument
  handle_get_project_io arguments = do
    p ← project_id_argument arguments
    inside ← on_store (is_in_scope p)
    let found = do profile ← on_store (get_profile k.codec p); pure (io_reply p profile)
    if inside then found else pure (not_in_scope_result p)

  abbrev pub dependencies_reply : ℕ → Option ProjectProfile → Result
  dependencies_reply p none = not_yet_analyzed_result p
  dependencies_reply p (some profile) = structured_result sdk (dependencies_payload profile)

  unfoldable pub handle_get_project_dependencies : J → Exec (World E) Result
  unfolding ◌>>=◌ project_id_argument
  handle_get_project_dependencies arguments = do
    p ← project_id_argument arguments
    inside ← on_store (is_in_scope p)
    let found = do profile ← on_store (get_profile k.codec p); pure (dependencies_reply p profile)
    if inside then found else pure (not_in_scope_result p)

  abbrev pub profile_reply : ℕ → Option ProjectProfile → Result
  profile_reply p none = not_yet_analyzed_result p
  profile_reply p (some profile) = structured_result sdk (profile_payload profile)

  unfoldable pub handle_get_project_profile : J → Exec (World E) Result
  unfolding ◌>>=◌ project_id_argument
  handle_get_project_profile arguments = do
    p ← project_id_argument arguments
    inside ← on_store (is_in_scope p)
    let found = do profile ← on_store (get_profile k.codec p); pure (profile_reply p profile)
    if inside then found else pure (not_in_scope_result p)

  abbrev pub conflict_fields : ConflictPair → List (String × Cell)
  conflict_fields pair =
      ("project_id_a", Cell.id pair.project_id_a)
      ∷ ("project_id_b", Cell.id pair.project_id_b)
      ∷ ("justification", Cell.words pair.justification)
      ∷ []

  unfoldable pub handle_list_purpose_conflicts : J → Exec (World E) Result
  unfolding ◌>>=◌
  handle_list_purpose_conflicts arguments = do
    profiles ← on_store (list_profiles k.codec)
    pure (
        structured_result sdk (
          Payload.fields (
            ("conflicts", Value.dicts (map conflict_fields (find_all_conflicts py profiles)))
            ∷ [])))

  -- The `except` arms of the two refresh handlers.
  unfoldable pub busy_result : Error → Exec (World E) Result
  busy_result ingestion_in_progress = pure (error_result (message_of sdk ingestion_in_progress))
  busy_result e = raise e

  unfoldable pub refused_result : Error → Exec (World E) Result
  unfolding busy_result
  refused_result (project_not_in_scope p) = pure (not_in_scope_result p)
  refused_result e = busy_result e

  abbrev pub full_payload : Payload J
  full_payload =
      Payload.fields (("status", Value.text "completed") ∷ ("trigger", Value.text "full") ∷ [])

  abbrev pub single_payload : ℕ → Payload J
  single_payload p = Payload.fields (
      ("status", Value.text "completed")
      ∷ ("trigger", Value.text "single_project")
      ∷ ("gitlab_project_id", Value.number p)
      ∷ [])

  unfoldable pub handle_refresh_all_projects : J → Exec (World E) Result
  unfolding ◌>>=◌ catch busy_result
  handle_refresh_all_projects arguments =
      catch (do start_full_refresh (some k); pure (structured_result sdk full_payload)) busy_result

  unfoldable pub handle_refresh_project : J → Exec (World E) Result
  unfolding ◌>>=◌ catch refused_result project_id_argument
  handle_refresh_project arguments = do
    p ← project_id_argument arguments
    catch
        (do
          start_single_project_refresh (some k) p
          pure (structured_result sdk (single_payload p)))
        refused_result

  abbrev pub registrations : List (String × Handler (World E) J)
  registrations =
      ("list_projects", handle_list_projects)
      ∷ ("get_project_purpose", handle_get_project_purpose)
      ∷ ("get_project_io", handle_get_project_io)
      ∷ ("get_project_dependencies", handle_get_project_dependencies)
      ∷ ("get_project_profile", handle_get_project_profile)
      ∷ ("list_purpose_conflicts", handle_list_purpose_conflicts)
      ∷ ("refresh_all_projects", handle_refresh_all_projects)
      ∷ ("refresh_project", handle_refresh_project)
      ∷ []

-- `self.register_tool(_TOOL_BY_NAME[tool_name], handler)`
abbrev pub register_found :
    {W J : Type 0} → Handler W J → Option Tool → Exec (McpServer W J) (Unit {0})
register_found handler none = raise (other "KeyError")
register_found handler (some tool) = register_tool tool handler

unfoldable pub register_all :
    {W J : Type 0} → List (String × Handler W J) → Exec (McpServer W J) (Unit {0})
unfolding ◌>>=◌ look_up register_tool
register_all [] = pure tt
register_all ((name, handler) ∷ rest) = do
  register_found handler (look_up name (by_name built_in_tools))
  register_all rest

unfoldable pub register_built_in_tools :
    {E J : Type 0} → Sdk J → Interpreter → Wiring E → Exec (McpServer (World E) J) (Unit {0})
unfolding register_all
register_built_in_tools sdk py k = register_all (registrations sdk py k)
