-- ===== src/Server/Protocol.antt =====
-- crates/tinymcp/src/server/protocol/mod.rs: JSON-RPC 2.0 for an MCP server. Here: its
-- responses, its versions, and its reading of the params.
pub mod Requests
pub mod Messages
pub mod Bounded
pub mod Answers
pub mod Routing
pub mod Versions
pub mod Limits
pub mod Agreement
pub mod Writing
pub mod Room
use Prim.Native.String.{◌++◌}
use tinymcp.Common.{
  Bool, true, false, ◌&&◌, ◌||◌, List, [], ◌∷◌, map, all, contains, Option, none, some, String,
  str_eq, if◌then◌else◌, unwrap_or, is_some, Result, ok, err,
}
use tinymcp.Common.Int.{ℤ}
use tinymcp.Common.Options.{◌>>=◌, keep_if}
use tinymcp.Common.Chars.{trim}
use tinymcp.Json.{
  Value, null, bool, number, string, array, object, Items, nil, cons, Members, end, Codec, insert,
  get, get_in, as_str, as_object, object_of, list_items, values, is_string, from_i64, members_of,
}
use tinymcp.AgentTools.Arguments.{normalize_tool_arguments, args_error_text}
use tinymcp.Server.Declarations.{
  ToolCallError, message, error_code, jsonrpc_message, ServerInfo, ServerToolSpec, ResourceSpec,
  RequestHeaders, RequestContext, tool_to_json, resource_to_json, invalid_request, method_not_found,
  invalid_params_code, insert_some,
}
use tinymcp.Server.Session.{
  ClientSession, observe_initialize_params, observe_initialize_response, source_type,
}

abbrev pub latest_protocol_version : String
latest_protocol_version = "2025-11-25"

abbrev pub supported_protocol_versions : List String
supported_protocol_versions =
    "2024-11-05" ∷ "2025-03-26" ∷ "2025-06-18" ∷ latest_protocol_version ∷ []

unfoldable pub envelope : Value → String → Value → Value
envelope id kind body =
    object (insert kind body (insert "id" id (insert "jsonrpc" (string "2.0") end)))

unfoldable pub success_response : Value → Value → Value
unfolding envelope
success_response id result = envelope id "result" result

unfoldable pub error_response : Value → ℤ → String → Option Value → Value
unfolding envelope
error_response id code text detail = envelope id "error" (
    object (
      insert_some "data" detail
        (insert "message" (string text) (insert "code" (from_i64 code) end))))

abbrev pub valid_request_id : Value → Bool
valid_request_id (string _) = true
valid_request_id (number n) = is_some n.as_i64 || is_some n.as_u64
valid_request_id _ = false

-- An `Invalid Request`, an `Invalid params`, and an error of the handler.
abbrev pub invalid : Value → String → Value
invalid id what = error_response id invalid_request "Invalid Request" (some (string what))

abbrev pub refused : Value → String → Value
refused id what = error_response id invalid_params_code "Invalid params" (some (string what))

abbrev pub handler_response : Value → Result Value ToolCallError → Value
handler_response id (ok value) = success_response id value
handler_response id (err e) =
    error_response id (error_code e) (jsonrpc_message e) (some (string (message e)))

-- The version that an `initialize` is answered with.
unfoldable pub negotiated : Value → String
negotiated params =
    unwrap_or
      (do
        requested ← get_in "protocolVersion" params
        version ← as_str requested
        keep_if (contains supported_protocol_versions) version)
      latest_protocol_version

abbrev pub instructions_value : Option String → Option Value
instructions_value none = none
instructions_value (some s) = some (string s)

-- `json!` of the result, without the instructions.
abbrev pub initialize_members : ServerInfo → Value → Members
initialize_members info params = members_of (
    ("protocolVersion", string (negotiated params))
    ∷ (
      "capabilities",
      object_of (
          ("tools", object end)
          ∷ ("resources", object_of (("subscribe", bool false) ∷ ("listChanged", bool false) ∷ []))
          ∷ []),
    )
    ∷ ("serverInfo", object_of (("name", string info.name) ∷ ("version", string info.version) ∷ []))
    ∷ [])

unfoldable pub initialize_result : ServerInfo → Value → Value
unfolding negotiated
initialize_result info params = object (
    insert_some "instructions" (instructions_value info.instructions)
      (initialize_members info params))

-- An object's member is set to a value in place: `value[key] = member`.
abbrev pub set_in : String → Value → Value → Value
set_in key member (object m) = object (insert key member m)
set_in key member other = other

-- `result["capabilities"]["prompts"] = json!({})`.
abbrev pub with_prompts : Value → Value
with_prompts result =
    set_in "capabilities"
      (set_in "prompts" (object end) (unwrap_or (get_in "capabilities" result) (object end))) result

-- The text at a name, trimmed, unless it is blank.
unfoldable pub trimmed_text : String → Value → Option String
trimmed_text name params = do
  value ← get_in name params
  raw ← as_str value
  keep_if (λ s. if str_eq s "" then false else true) (trim raw)

module _ (json : Codec) where
  abbrev pub arguments_or : String → Result Members String → Result (String × Members) String
  arguments_or name (ok arguments) = ok (name, arguments)
  arguments_or name (err e) = err e

  abbrev pub read_arguments : Option Value → Result Members String
  read_arguments given = elim (normalize_tool_arguments json given) [
    | ok arguments ↦ ok arguments
    | err e ↦ err ("tools/call params.arguments: " ++ args_error_text e)
  ]

  abbrev pub read_name : Members → Option String → Result (String × Members) String
  read_name m none = err "tools/call params.name must be a non-empty string"
  read_name m (some name) = arguments_or name (read_arguments (get "arguments" m))

  abbrev pub read_call : Option Members → Result (String × Members) String
  read_call none = err "tools/call params must be an object"
  read_call (some m) = read_name m (trimmed_text "name" (object m))

  unfoldable pub parse_tool_call_params : Value → Result (String × Members) String
  unfolding trimmed_text
  parse_tool_call_params params = read_call (as_object params)

-- The arguments of a prompt: absent, or an object of texts.
abbrev pub prompt_arguments : Option Value → Option Members
prompt_arguments none = some end
prompt_arguments (some (object m)) = keep_if (λ a. all is_string (values a)) m
prompt_arguments (some _) = none
