-- ===== src/Server/Shown.antt =====
-- What the tools of src/project_knowledge_mcp/mcp_server.py that read one project show of it.
use Prim.Native.String.{◌++◌}
use gitlab_knowledege.Common.{
  ℕ, ◌≡◌, refl, true, false, Option, none, some, String, ◌⊎◌, inl, inr, decimal, map,
}
use gitlab_knowledege.Exec.{store_unavailable}
use gitlab_knowledege.Models.{ProjectProfile}
use gitlab_knowledege.Store.Tables.{ProfileCells}
use gitlab_knowledege.Conflicts.{Interpreter}
use gitlab_knowledege.Jobs.{Wiring, World}
use gitlab_knowledege.Server.{
  Sdk, Value, Payload, CallToolResult, Handler, look_up, not_yet_analyzed_result, message_of,
  structured_result,
}
use gitlab_knowledege.Server.Handlers.{
  reason_value, purpose_payload, io_payload, dependencies_payload, profile_payload, purpose_reply,
  io_reply, dependencies_reply, profile_reply, handle_get_project_purpose, handle_get_project_io,
  handle_get_project_dependencies, handle_get_project_profile,
}

-- The tools that read one project.
pub data ReadTool : Type 0 where
  purpose io dependencies profile : ReadTool

abbrev pub tool_name : ReadTool → String
tool_name purpose = "get_project_purpose"
tool_name io = "get_project_io"
tool_name dependencies = "get_project_dependencies"
tool_name profile = "get_project_profile"

module _ {E J : Type 0} (sdk : Sdk J) (py : Interpreter) (k : Wiring E) where
  -- `v` stands in `payload` under `name`.
  abbrev pub Holds : Payload J → String → Value J → Type 0
  Holds (Payload.fields d) name v = look_up name d ≡ some v
  Holds (Payload.dumped j) name v = ⊥

  -- What a payload of each tool has of a profile.
  abbrev pub IsShown : ReadTool → ProjectProfile → Payload J → Type 0
  IsShown purpose x payload =
      Holds payload "gitlab_project_id" (Value.number x.gitlab_project_id)
      × Holds payload "purpose_summary" (Value.text x.purpose_summary)
      × Holds payload "purpose_summary_reason" (reason_value sdk py k x.purpose_summary_reason)
  IsShown io x payload =
      Holds payload "gitlab_project_id" (Value.number x.gitlab_project_id)
      × Holds payload "abstract_inputs" (Value.objects (map sdk.dump_input x.abstract_inputs))
      × Holds payload "abstract_outputs" (Value.objects (map sdk.dump_output x.abstract_outputs))
  IsShown dependencies x payload =
      Holds payload "gitlab_project_id" (Value.number x.gitlab_project_id)
      × Holds payload "external_service_dependencies"
          (Value.objects (map sdk.dump_service x.external_service_dependencies))
      × Holds payload "database_table_dependencies"
          (Value.objects (map sdk.dump_table x.database_table_dependencies))
  IsShown profile x payload = payload ≡ Payload.dumped (sdk.dump_profile x)

  -- The answer on a row of the profiles: an error result if its JSON is not valid, and else the
  -- payload, as text and as it is.
  abbrev pub IsProfileReply : ReadTool → String ⊎ ProjectProfile → CallToolResult J → Type 0
  IsProfileReply tool (inl why) r =
      (r.is_error ≡ true)
      × (r.content
          ≡ "tool execution failed: "
            ++ message_of sdk (store_unavailable ("failed to rehydrate Project_Profile: " ++ why)))
  IsProfileReply tool (inr x) r =
      (payload : Payload J) × IsShown tool x payload
      × (r.structured_content ≡ some payload)
      × (r.content ≡ sdk.dumps payload)
      × (r.is_error ≡ false)

  -- The answer by the project's row in the catalog and its row in the profiles.
  abbrev pub IsReadReply :
      ReadTool → ℕ → Option String → Option ProfileCells → CallToolResult J → Type 0
  IsReadReply tool p none cells r =
      (r.is_error ≡ true) × (r.content ≡ "project " ++ decimal p ++ " is not in scope")
  IsReadReply tool p (some path) none r =
      (r.is_error ≡ false)
      × (r.content
          ≡ "project "
            ++ decimal p
            ++ " has not yet been analyzed; run an Ingestion_Job to populate its profile")
      × (r.structured_content ≡ none)
  IsReadReply tool p (some path) (some cells) r =
      IsProfileReply tool (k.codec.validate cells.profile_json) r

  abbrev pub handler_of : ReadTool → Handler (World E) J
  handler_of purpose = handle_get_project_purpose sdk py k
  handler_of io = handle_get_project_io sdk py k
  handler_of dependencies = handle_get_project_dependencies sdk py k
  handler_of profile = handle_get_project_profile sdk py k

  abbrev pub payload_of : ReadTool → ProjectProfile → Payload J
  payload_of purpose = purpose_payload sdk py k
  payload_of io = io_payload sdk py k
  payload_of dependencies = dependencies_payload sdk py k
  payload_of profile = profile_payload sdk py k

  pub payload_of-IsShown :
      (tool : ReadTool) (x : ProjectProfile) → IsShown tool x (payload_of tool x)
  unfolding look_up
  payload_of-IsShown purpose x = (refl, refl, refl)
  payload_of-IsShown io x = (refl, refl, refl)
  payload_of-IsShown dependencies x = (refl, refl, refl)
  payload_of-IsShown profile x = refl

  abbrev pub reply_of : ReadTool → ℕ → Option ProjectProfile → CallToolResult J
  reply_of purpose = purpose_reply sdk py k
  reply_of io = io_reply sdk py k
  reply_of dependencies = dependencies_reply sdk py k
  reply_of profile = profile_reply sdk py k

  pub reply_of-none : (tool : ReadTool) (p : ℕ) → reply_of tool p none ≡ not_yet_analyzed_result p
  reply_of-none purpose p = refl
  reply_of-none io p = refl
  reply_of-none dependencies p = refl
  reply_of-none profile p = refl

  pub reply_of-some :
      (tool : ReadTool) (p : ℕ) (x : ProjectProfile)
      → reply_of tool p (some x) ≡ structured_result sdk (payload_of tool x)
  reply_of-some purpose p x = refl
  reply_of-some io p x = refl
  reply_of-some dependencies p x = refl
  reply_of-some profile p x = refl
