-- ===== src/Server/Protocol/Requests.antt =====
-- crates/tinymcp/src/server/protocol/mod.rs: the methods. The handler that a host supplies is an
-- interface on a state of its own; the model passes that state and the session on.
use tinymcp.Server.Protocol.{
  success_response, error_response, handler_response, refused, initialize_result, with_prompts,
  trimmed_text, prompt_arguments, parse_tool_call_params,
}
use Prim.Native.String.{◌++◌}
use tinymcp.Common.{
  Bool, ◌&&◌, List, [], ◌∷◌, map, Option, none, some, String, str_eq, if◌then◌else◌, Result, ok,
  err,
}
use tinymcp.Json.{
  Value, string, array, object, nil, Members, end, Codec, get_in, object_of, list_items,
}
use tinymcp.Server.Declarations.{
  ToolCallError, ServerInfo, ServerToolSpec, ResourceSpec, RequestHeaders, RequestContext,
  tool_to_json, resource_to_json, method_not_found,
}
use tinymcp.Server.Session.{
  ClientSession, observe_initialize_params, observe_initialize_response, source_type,
}

-- `McpServerHandler`.
pub record Handler (S : Type 0) : Type 0 where
  pub server_info : S → ServerInfo
  pub supports_prompts : S → Bool
  pub list_tools_result : RequestContext → S → Result (List ServerToolSpec) ToolCallError × S
  pub call_tool : RequestContext → String → Members → S → Result Value ToolCallError × S
  pub list_prompts : RequestContext → S → Result Value ToolCallError × S
  pub get_prompt : RequestContext → String → Members → S → Result Value ToolCallError × S
  pub read_resource_context : RequestContext → String → S → Result Value ToolCallError × S
  pub list_resources : S → List ResourceSpec

-- A call of the handler's state, answered under the request's id.
abbrev pub answer : {S : Type 0} → Value → Result Value ToolCallError × S → Value × S
answer id (r, s) = (handler_response id r, s)

abbrev pub tools_value : Result (List ServerToolSpec) ToolCallError → Result Value ToolCallError
tools_value (ok tools) =
    ok (object_of (("tools", array (list_items (map tool_to_json tools))) ∷ []))
tools_value (err e) = err e

abbrev pub answer_tools :
    {S : Type 0} → Value → Result (List ServerToolSpec) ToolCallError × S → Value × S
answer_tools id (r, s) = (handler_response id (tools_value r), s)

-- The version in the result that an `initialize` is answered with.
abbrev pub observe_version : ClientSession → Option Value → ClientSession
observe_version session (some (string version)) = observe_initialize_response version session
observe_version session other = session

abbrev pub observe_result : Value → ClientSession → ClientSession
observe_result result session = observe_version session (get_in "protocolVersion" result)

module _ {S : Type 0} (json : Codec) (h : Handler S) where
  abbrev pub get_named_prompt :
      RequestContext → Value → Option String → Option Members → S → Value × S
  get_named_prompt ctx id none arguments s = (refused id "prompts/get requires a non-empty name", s)
  get_named_prompt ctx id (some name) none s =
      (refused id "prompt arguments must be a string-valued object", s)
  get_named_prompt ctx id (some name) (some arguments) s =
      answer id (h.get_prompt ctx name arguments s)

  unfoldable pub get_prompt : RequestContext → Value → Value → S → Value × S
  get_prompt ctx id params s =
      get_named_prompt ctx id (trimmed_text "name" params)
        (prompt_arguments (get_in "arguments" params)) s

  abbrev pub read_uri : RequestContext → Value → Option String → S → Value × S
  read_uri ctx id none s = (refused id "resources/read params.uri must be a non-empty string", s)
  read_uri ctx id (some uri) s = answer id (h.read_resource_context ctx uri s)

  unfoldable pub read_resource : RequestContext → Value → Value → S → Value × S
  read_resource ctx id params s = read_uri ctx id (trimmed_text "uri" params) s

  abbrev pub call_parsed : RequestContext → Value → Result (String × Members) String → S → Value × S
  call_parsed ctx id (err what) s = (refused id what, s)
  call_parsed ctx id (ok (name, arguments)) s = answer id (h.call_tool ctx name arguments s)

  unfoldable pub call_tool : RequestContext → Value → Value → S → Value × S
  unfolding parse_tool_call_params
  call_tool ctx id params s = call_parsed ctx id (parse_tool_call_params json params) s

  abbrev pub initialize : Value → Value → ClientSession × S → Value × (ClientSession × S)
  initialize id params (session, s) =
      let result = initialize_result (h.server_info s) params in
      (
        success_response id (if h.supports_prompts s then with_prompts result else result),
        (observe_result result (observe_initialize_params params session), s),
      )

  -- A method that leaves the session alone.
  abbrev pub in_session : ClientSession → Value × S → Value × (ClientSession × S)
  in_session session (response, s) = (response, (session, s))

  abbrev pub resources_value : List ResourceSpec → Value
  resources_value l = object_of (("resources", array (list_items (map resource_to_json l))) ∷ [])

  -- `RequestContext::new(session.source_type(), headers.clone())`.
  abbrev pub context : ClientSession → RequestHeaders → RequestContext
  context session headers = record { source_type = source_type session; headers = headers }

  unfoldable pub handle_request :
      RequestHeaders → Value → String → Value → ClientSession × S → Value × (ClientSession × S)
  handle_request headers id method params (session, s) =
      let ctx = context session headers in
      let stay = in_session session in
      if str_eq method "initialize"
      then initialize id params (session, s)
      else if str_eq method "ping"
      then stay (success_response id (object end), s)
      else if str_eq method "tools/list"
      then stay (answer_tools id (h.list_tools_result ctx s))
      else if str_eq method "resources/list"
      then stay (success_response id (resources_value (h.list_resources s)), s)
      else if str_eq method "resources/templates/list"
      then stay (success_response id (object_of (("resourceTemplates", array nil) ∷ [])), s)
      else if str_eq method "resources/read"
      then stay (read_resource ctx id params s)
      else if str_eq method "prompts/list" && h.supports_prompts s
      then stay (answer id (h.list_prompts ctx s))
      else if str_eq method "prompts/get" && h.supports_prompts s
      then stay (get_prompt ctx id params s)
      else if str_eq method "tools/call"
      then stay (call_tool ctx id params s)
      else stay (
        error_response id method_not_found "Method not found"
            (some (string ("unsupported MCP method `" ++ (method ++ "`")))),
        s,
      )
