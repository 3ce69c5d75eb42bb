-- ===== src/Server/Dispatch.antt =====
-- `_dispatch_tool_call` of src/project_knowledge_mcp/mcp_server.py. The McpError that it raises is
-- the left side of its answer.
use Prim.Native.String.{◌++◌}
use gitlab_knowledege.Common.{Option, none, some, String, ◌⊎◌, inl, inr}
use gitlab_knowledege.Exec.{Error, Exec, pure, catch, ◌>>=◌}
use gitlab_knowledege.Server.{
  Sdk, CallToolResult, Tool, ValidationError, Handler, McpServer, message_of, error_result,
  failing_argument_name, validation_rule_name, look_up, by_name, built_in_tools,
}

pub data ErrorCode : Type 0 where
  method_not_found invalid_params : ErrorCode

pub record ErrorData : Type 0 where
  pub code : ErrorCode
  pub message : String
  -- `argument` and `rule`
  pub detail : Option (String × String)

abbrev pub unknown_tool : String → ErrorData
unknown_tool name = record {
  code = method_not_found;
  message = "tool '" ++ name ++ "' is unknown";
  detail = none;
}

abbrev pub invalid_argument : String → String → String → ErrorData
invalid_argument name argument rule = record {
  code = invalid_params;
  message =
      "argument '" ++ argument ++ "' for tool '" ++ name ++ "' failed validation rule '" ++ rule
      ++ "'";
  detail = some (argument, rule);
}

abbrev pub Reply : Type 0 → Type 0
Reply J = ErrorData ⊎ CallToolResult J

-- `req.params.arguments or {}`
abbrev pub arguments_of : {J : Type 0} → Sdk J → Option J → J
arguments_of sdk none = sdk.empty
arguments_of sdk (some arguments) = arguments

module _ {W J : Type 0} (sdk : Sdk J) where
  -- `except Exception`
  abbrev pub failed : Error → Exec W (Reply J)
  failed e = pure (inr (error_result ("tool execution failed: " ++ message_of sdk e)))

  unfoldable pub run_handler : J → Option (Handler W J) → Exec W (Reply J)
  unfolding ◌>>=◌ catch pure
  run_handler arguments none =
      pure (inr (error_result "tool execution failed: handler not registered"))
  run_handler arguments (some handler) =
      catch (do result ← handler arguments; pure (inr result)) failed

  unfoldable pub dispatch_valid :
      McpServer W J → String → J → Option ValidationError → Exec W (Reply J)
  unfolding run_handler
  dispatch_valid server name arguments none =
      run_handler arguments (look_up name server.tool_handlers)
  dispatch_valid server name arguments (some exc) = pure (
      inl (
        invalid_argument name (failing_argument_name sdk exc arguments)
          (validation_rule_name sdk exc)))

  unfoldable pub dispatch_tool : McpServer W J → String → J → Option Tool → Exec W (Reply J)
  unfolding dispatch_valid
  dispatch_tool server name arguments none = pure (inl (unknown_tool name))
  dispatch_tool server name arguments (some tool) =
      dispatch_valid server name arguments (sdk.validate arguments tool.input_schema)

  unfoldable pub dispatch_tool_call : McpServer W J → String → Option J → Exec W (Reply J)
  unfolding dispatch_tool
  dispatch_tool_call server name arguments =
      dispatch_tool server name (arguments_of sdk arguments) (look_up name (by_name built_in_tools))
