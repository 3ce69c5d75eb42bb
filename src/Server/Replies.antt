-- ===== src/Server/Replies.antt =====
-- What the dispatcher of src/project_knowledge_mcp/mcp_server.py answers.
use Prim.Native.String.{◌++◌}
use gitlab_knowledege.Common.{◌≡◌, refl, Option, none, some, String, ◌⊎◌, inl, inr, Option-cases}
use gitlab_knowledege.Exec.{Outcome, returned, raised, pure, handle, resume}
use gitlab_knowledege.Server.{
  Sdk, CallToolResult, Tool, ValidationError, Handler, McpServer, look_up, by_name, built_in_tools,
  failing_argument_name, validation_rule_name, error_result, message_of,
}
use gitlab_knowledege.Server.Dispatch.{
  Reply, ErrorData, method_not_found, invalid_params, arguments_of, run_handler, dispatch_tool,
  dispatch_tool_call,
}

module _ {W J : Type 0} (sdk : Sdk J) (server : McpServer W J) (name : String) (arguments : J)
    (w : W) where
  -- A refusal names the reason: there is no such tool, or its schema rejects the arguments.
  abbrev pub IsRefusal : ErrorData → Type 0
  IsRefusal e =
      ((e.code ≡ method_not_found) × (look_up name (by_name built_in_tools) ≡ none))
      ⊎ ((e.code ≡ invalid_params)
          × (tool : Tool) × (exc : ValidationError) × (look_up name (by_name built_in_tools)
              ≡ some tool)
          × (sdk.validate arguments tool.input_schema ≡ some exc)
          × (e.detail
              ≡ some (failing_argument_name sdk exc arguments, validation_rule_name sdk exc)))

  abbrev pub IsAccepted : Type 0
  IsAccepted =
      (tool : Tool) × (look_up name (by_name built_in_tools) ≡ some tool)
      × (sdk.validate arguments tool.input_schema ≡ none)

  -- An answer, and no exception; a refusal leaves the world alone.
  abbrev pub IsAnswered : Outcome W (Reply J) → Type 0
  IsAnswered (returned (inl e) w') = (w' ≡ w) × IsRefusal e
  IsAnswered (returned (inr result) w') = IsAccepted
  IsAnswered (raised e w') = ⊥

  handled-IsAnswered :
      (o : Outcome W (CallToolResult J))
      → IsAccepted
      → IsAnswered (
          handle
            (resume o (λ result. pure (inr result)))
            (λ e. pure (inr (error_result ("tool execution failed: " ++ message_of sdk e)))))
  unfolding pure
  handled-IsAnswered (returned result w') h = h
  handled-IsAnswered (raised e w') h = h

  run_handler-IsAnswered :
      (found : Option (Handler W J)) → IsAccepted → IsAnswered (run_handler sdk arguments found w)
  unfolding run_handler
  run_handler-IsAnswered none h = h
  run_handler-IsAnswered (some handler) h = handled-IsAnswered (handler arguments w) h

  dispatch_tool-IsAnswered :
      (found : Option Tool)
      → look_up name (by_name built_in_tools) ≡ found
      → IsAnswered (dispatch_tool sdk server name arguments found w)
  unfolding dispatch_tool pure
  dispatch_tool-IsAnswered none e = (refl, inl (refl, e))
  dispatch_tool-IsAnswered (some tool) e =
      elim (Option-cases (sdk.validate arguments tool.input_schema)) [
        | inl v ↦ rw v (run_handler-IsAnswered (look_up name server.tool_handlers) (tool, e, v))
        | inr (exc, v) ↦ rw v (refl, inr (refl, tool, exc, e, v, refl))
      ]

module _ {W J : Type 0} (sdk : Sdk J) where
  -- The dispatcher answers every call, and no exception of a handler leaves it. It refuses a
  -- call, without having done anything, only if no built-in tool has its name, with
  -- MethodNotFound, or if the schema of the tool rejects its arguments, with InvalidParams, the
  -- failing argument and the rule; any other answer is a tool result for arguments that the
  -- schema accepts.
  pub dispatch_tool_call-IsAnswered :
      (server : McpServer W J) (name : String) (arguments : Option J) (w : W)
      → IsAnswered sdk server name
          (arguments_of sdk arguments)
          w
          (dispatch_tool_call sdk server name arguments w)
  unfolding dispatch_tool_call
  dispatch_tool_call-IsAnswered server name arguments w =
      dispatch_tool-IsAnswered sdk server name (arguments_of sdk arguments) w
        (look_up name (by_name built_in_tools)) refl
