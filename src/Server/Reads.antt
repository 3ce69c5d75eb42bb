-- ===== src/Server/Reads.antt =====
-- The tools of src/project_knowledge_mcp/mcp_server.py that read one project, on a store without
-- faults.
use Prim.Native.String.{◌++◌}
use gitlab_knowledege.Common.{
  ℕ, ◌≡◌, refl, ap, ◌∙◌, Bool, Option, none, some, String, ◌⊎◌, inl, inr, if◌then◌else◌,
}
use gitlab_knowledege.Exec.{
  store_unavailable, Outcome, returned, raised, Exec, final, pure, resume, ◌>>=◌,
}
use gitlab_knowledege.Exec.Inversion.{bind_run}
use gitlab_knowledege.Models.{ProjectProfile}
use gitlab_knowledege.Store.Rows.{scan}
use gitlab_knowledege.Store.Rows.Laws.{get}
use gitlab_knowledege.Store.Tables.{ProfileCells, Tables}
use gitlab_knowledege.Store.Reader.{get_profile}
use gitlab_knowledege.Store.Reader.Profiles.{validated, profile_of, get_profile-eq-profile_of}
use gitlab_knowledege.Store.Serves.{healthy}
use gitlab_knowledege.Catalog.{is_in_scope, is_some}
use gitlab_knowledege.Catalog.Answers.{is_in_scope-healthy}
use gitlab_knowledege.Conflicts.{Interpreter}
use gitlab_knowledege.Jobs.{Wiring, World, with_store, on_store}
use gitlab_knowledege.Server.{
  Sdk, CallToolResult, Handler, look_up, error_result, not_in_scope_result, not_yet_analyzed_result,
  gitlab_project_id_input_schema, message_of, structured_result,
}
use gitlab_knowledege.Server.Handlers.{
  register_built_in_tools, project_id_argument, handle_get_project_purpose, handle_get_project_io,
  handle_get_project_dependencies, handle_get_project_profile,
}
use gitlab_knowledege.Server.Registry.{empty_server, wired}
use gitlab_knowledege.Server.Dispatch.{
  run_handler, dispatch_valid, dispatch_tool, dispatch_tool_call,
}
use gitlab_knowledege.Server.Shown.{
  ReadTool, purpose, io, dependencies, profile, tool_name, IsProfileReply, IsReadReply, handler_of,
  payload_of-IsShown, payload_of, reply_of-none, reply_of-some, reply_of,
}

module _ {E J : Type 0} (sdk : Sdk J) (py : Interpreter) (k : Wiring E) where
  module _ (arguments given : J) (p s : ℕ) (w : World E) (t : Tables)
      (has : sdk.argument "gitlab_project_id" arguments ≡ some given)
      (number : sdk.int given ≡ some p) (current : t.current_snapshot ≡ some (some s)) where
    abbrev v : World E
    v = record w { store = healthy t }

    abbrev replied : ReadTool → String ⊎ ProjectProfile → Outcome (World E) (CallToolResult J)
    replied tool (inl why) =
        raised (store_unavailable ("failed to rehydrate Project_Profile: " ++ why)) v
    replied tool (inr x) = returned (reply_of sdk py k tool p (some x)) v

    abbrev handled :
        ReadTool → Option String → Option ProfileCells → Outcome (World E) (CallToolResult J)
    handled tool none cells = returned (not_in_scope_result p) v
    handled tool (some path) none = returned (reply_of sdk py k tool p none) v
    handled tool (some path) (some cells) = replied tool (k.codec.validate cells.profile_json)

    id_given : project_id_argument sdk py k arguments v ≡ returned p v
    unfolding project_id_argument pure
    id_given = rw (has, number, project_id_argument) refl

    scope_read :
        on_store (is_in_scope p) v ≡ returned (is_some (get p (scan s t.project_catalog))) v
    unfolding on_store
    scope_read = ap (with_store v) (is_in_scope-healthy s t current p)

    profile_read :
        on_store (get_profile k.codec p) v
        ≡ with_store v (profile_of k.codec (get p (scan s t.project_profiles)) (healthy t))
    unfolding on_store
    profile_read = ap (with_store v) (get_profile-eq-profile_of k.codec s p t current)

    -- The steps of a handler behind its two reads.
    abbrev profile_steps : ReadTool → Exec (World E) (CallToolResult J)
    profile_steps tool = on_store (get_profile k.codec p) >>= λ x. pure (reply_of sdk py k tool p x)

    abbrev scope_steps : ReadTool → Bool → Exec (World E) (CallToolResult J)
    scope_steps tool inside = if inside then profile_steps tool else pure (not_in_scope_result p)

    replied_all :
        (tool : ReadTool) (o : String ⊎ ProjectProfile)
        → resume (with_store v (validated o (healthy t))) (λ x. pure (reply_of sdk py k tool p x))
          ≡ replied tool o
    unfolding pure
    replied_all tool (inl why) = refl
    replied_all tool (inr x) = refl

    profile_replied :
        (tool : ReadTool) (path : String) (cells : Option ProfileCells)
        → resume
            (with_store v (profile_of k.codec cells (healthy t)))
            (λ x. pure (reply_of sdk py k tool p x))
          ≡ handled tool (some path) cells
    unfolding pure
    profile_replied tool path none = refl
    profile_replied tool path (some cells) = replied_all tool (k.codec.validate cells.profile_json)

    scope_replied :
        (tool : ReadTool) (row : Option String)
        → scope_steps tool (is_some row) v ≡ handled tool row (get p (scan s t.project_profiles))
    unfolding ◌>>=◌ pure
    scope_replied tool none = refl
    scope_replied tool (some path) =
        ap (λ o. resume o (λ x. pure (reply_of sdk py k tool p x))) profile_read
        ∙ profile_replied tool path (get p (scan s t.project_profiles))

    begins :
        (tool : ReadTool)
        → handler_of sdk py k tool arguments v
          ≡ (project_id_argument sdk py k arguments >>= λ q. on_store (is_in_scope q) >>= λ inside.
                if inside
                then (on_store (get_profile k.codec q) >>= λ x. pure (reply_of sdk py k tool q x))
                else pure (not_in_scope_result q))
              v
    unfolding handle_get_project_purpose handle_get_project_io handle_get_project_dependencies
        handle_get_project_profile
    begins purpose = refl
    begins io = refl
    begins dependencies = refl
    begins profile = refl

    handler_of-eq-handled :
        (tool : ReadTool)
        → handler_of sdk py k tool arguments v
          ≡ handled tool (get p (scan s t.project_catalog)) (get p (scan s t.project_profiles))
    handler_of-eq-handled tool =
        begins tool
        ∙ bind_run (project_id_argument sdk py k arguments) _ id_given
        ∙ bind_run (on_store (is_in_scope p)) (scope_steps tool) scope_read
        ∙ scope_replied tool (get p (scan s t.project_catalog))

    abbrev failed_read : String → CallToolResult J
    failed_read why = error_result (
        "tool execution failed: "
        ++ message_of sdk (store_unavailable ("failed to rehydrate Project_Profile: " ++ why)))

    run_profile :
        (tool : ReadTool) (handler : Handler (World E) J) (o : String ⊎ ProjectProfile)
        → handler arguments v ≡ replied tool o
        → (result : CallToolResult J) × (run_handler sdk arguments (some handler) v
            ≡ returned (inr result) v)
          × IsProfileReply sdk py k tool o result
    unfolding run_handler message_of structured_result
    run_profile tool handler (inl why) e = (failed_read why, rw e refl, (refl, refl))
    run_profile tool handler (inr x) e =
        let same = reply_of-some sdk py k tool p x in
        (
          reply_of sdk py k tool p (some x),
          rw e refl,
          (
            payload_of sdk py k tool x,
            payload_of-IsShown sdk py k tool x,
            ap (λ (r : CallToolResult J). r.structured_content) same,
            ap (λ (r : CallToolResult J). r.content) same,
            ap (λ (r : CallToolResult J). r.is_error) same,
          ),
        )

    run_read :
        (tool : ReadTool) (handler : Handler (World E) J) (row : Option String)
        (cells : Option ProfileCells)
        → handler arguments v ≡ handled tool row cells
        → (result : CallToolResult J) × (run_handler sdk arguments (some handler) v
            ≡ returned (inr result) v)
          × IsReadReply sdk py k tool p row cells result
    unfolding run_handler
    run_read tool handler none cells e = (not_in_scope_result p, rw e refl, (refl, refl))
    run_read tool handler (some path) none e =
        (not_yet_analyzed_result p, rw (e, reply_of-none sdk py k tool p) refl, (refl, refl, refl))
    run_read tool handler (some path) (some cells) e =
        run_profile tool handler (k.codec.validate cells.profile_json) e

    dispatched :
        (tool : ReadTool)
        → sdk.validate arguments gitlab_project_id_input_schema ≡ none
        → dispatch_tool_call sdk
            (final (register_built_in_tools sdk py k (empty_server sdk py k)))
            (tool_name tool)
            (some arguments)
            v
          ≡ run_handler sdk arguments (some (handler_of sdk py k tool)) v
    unfolding dispatch_tool_call dispatch_tool dispatch_valid look_up
    dispatched purpose valid = rw (wired sdk py k, valid) refl
    dispatched io valid = rw (wired sdk py k, valid) refl
    dispatched dependencies valid = rw (wired sdk py k, valid) refl
    dispatched profile valid = rw (wired sdk py k, valid) refl

    -- On the server with the built-in tools, on an open store without faults whose pointer names
    -- a snapshot, and for arguments that the schema accepts and that carry a project id, each of
    -- the four tools that read one project answers by the project's rows in that snapshot and
    -- changes nothing: without a catalog row, the error result that names the id; with one but no
    -- profile row, a result without an error that names the id and says that it is not yet
    -- analyzed; with a profile row whose JSON is not valid, the error result with the message of
    -- the unavailable store; and else the payload of the tool with the fields of the profile, as
    -- text and as structured content.
    pub read_tools-IsReadReply :
        (tool : ReadTool)
        → sdk.validate arguments gitlab_project_id_input_schema ≡ none
        → (result : CallToolResult J) × (dispatch_tool_call sdk
              (final (register_built_in_tools sdk py k (empty_server sdk py k)))
              (tool_name tool)
              (some arguments)
              v
            ≡ returned (inr result) v)
          × IsReadReply sdk py k tool p
              (get p (scan s t.project_catalog))
              (get p (scan s t.project_profiles))
              result
    read_tools-IsReadReply tool valid =
        let (result, e, h) =
          run_read tool (handler_of sdk py k tool) (get p (scan s t.project_catalog))
            (get p (scan s t.project_profiles)) (handler_of-eq-handled tool) in
        (result, dispatched tool valid ∙ e, h)
