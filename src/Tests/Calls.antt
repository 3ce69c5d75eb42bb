-- ===== src/Tests/Calls.antt =====
-- Calls of the tools on a small store.
use gitlab_knowledege.Common.{ℕ, ◌≡◌, refl, Option, none, some, List, [], ◌∷◌, String, inr}
use gitlab_knowledege.Exec.{returned}
use gitlab_knowledege.Jobs.{World}
use gitlab_knowledege.Server.{
  Schema, no_args_input_schema, gitlab_project_id_input_schema, ValidationError, Sdk, Tool, Handler,
  CallToolResult, look_up, with_no_args, error_result,
}
use gitlab_knowledege.Server.Handlers.{register_built_in_tools, handle_list_projects}
use gitlab_knowledege.Server.Dispatch.{dispatch_tool_call}
use gitlab_knowledege.Server.Replies.{IsAnswered, dispatch_tool_call-IsAnswered}
use gitlab_knowledege.Server.Registry.{
  IsInStep, register_each, first_handler, or_else, register_each-IsInStep, empty_server,
  wired_server,
}
use gitlab_knowledege.Server.Shown.{ReadTool, IsReadReply}
use gitlab_knowledege.Server.Reads.{read_tools-IsReadReply}
use gitlab_knowledege.Store.Rows.{scan}
use gitlab_knowledege.Store.Rows.Laws.{get}
use gitlab_knowledege.Exec.{final}
use gitlab_knowledege.Tests.{working, world_of, published}
use gitlab_knowledege.Tests.Others.{ascii}

-- An object is the number of its `gitlab_project_id`, if it has one.
abbrev Object : Type 0
Object = List ℕ

abbrev without_id : ValidationError
without_id = record {
  absolute_path = [];
  validator = some "required";
  validator_value = some (some "gitlab_project_id" ∷ []);
}

abbrev check_arguments : Object → Schema → Option ValidationError
check_arguments arguments no_args_input_schema = none
check_arguments [] gitlab_project_id_input_schema = some without_id
check_arguments (p ∷ ps) gitlab_project_id_input_schema = none

abbrev first_number : Object → Option ℕ
first_number [] = none
first_number (p ∷ ps) = some p

abbrev given : Object → Option Object
given [] = none
given (p ∷ ps) = some (p ∷ ps)

abbrev sdk : Sdk Object
sdk = record {
  validate = check_arguments;
  empty = [];
  argument = λ name arguments. given arguments;
  int = first_number;
  dumps = λ payload. "{}";
  dump_project = λ x. [];
  dump_input = λ x. [];
  dump_output = λ x. [];
  dump_service = λ x. [];
  dump_table = λ x. [];
  dump_profile = λ x. [];
  message = λ e. "";
}

dispatch_tool_call-IsAnswered_example :
    IsAnswered sdk (wired_server sdk ascii working) "get_project_io" [] (world_of published) (
      dispatch_tool_call sdk
        (wired_server sdk ascii working)
        "get_project_io"
        none
        (world_of published))
dispatch_tool_call-IsAnswered_example =
    dispatch_tool_call-IsAnswered sdk (wired_server sdk ascii working) "get_project_io" none
      (world_of published)

abbrev echo : Handler (World ℕ) Object
echo arguments w = returned (error_result "echo") w

abbrev two_calls : List (Tool × Handler (World ℕ) Object)
two_calls =
    (with_no_args "echo" "", echo)
    ∷ (with_no_args "echo" "", handle_list_projects sdk ascii working)
    ∷ []

register_each-IsInStep_example :
    IsInStep (register_each two_calls (empty_server sdk ascii working))
    × ((name : String)
        → look_up name (register_each two_calls (empty_server sdk ascii working)).tool_handlers
          ≡ or_else
              (look_up name (empty_server sdk ascii working).tool_handlers)
              (first_handler name two_calls))
register_each-IsInStep_example =
    register_each-IsInStep two_calls (empty_server sdk ascii working) tt

read_tools-IsReadReply_example :
    (result : CallToolResult Object) × (dispatch_tool_call sdk
        (final (register_built_in_tools sdk ascii working (empty_server sdk ascii working)))
        "get_project_purpose"
        (some (7 ∷ []))
        (world_of published)
      ≡ returned (inr result) (world_of published))
    × IsReadReply sdk ascii working ReadTool.purpose 7
        (get 7 (scan 1 published.project_catalog))
        (get 7 (scan 1 published.project_profiles))
        result
read_tools-IsReadReply_example =
    read_tools-IsReadReply sdk ascii working (7 ∷ []) (7 ∷ []) 7 1 (world_of published) published
      refl refl refl ReadTool.purpose refl
