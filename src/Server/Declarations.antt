-- ===== src/Server/Declarations.antt =====
-- crates/tinymcp-bus/src/server/declarations.rs, with the extensions in
-- crates/tinymcp/src/server/tool_spec.rs and resource_spec.rs: what a server declares, and the
-- errors of its handler.
use tinymcp.Common.{Option, none, some, String, Map}
use tinymcp.Common.Int.{ℤ, minus}
use tinymcp.Json.{Value, string, object, Members, end, insert}

abbrev pub parse_error : ℤ
parse_error = minus 32700

abbrev pub invalid_request : ℤ
invalid_request = minus 32600

abbrev pub method_not_found : ℤ
method_not_found = minus 32601

abbrev pub invalid_params_code : ℤ
invalid_params_code = minus 32602

abbrev pub internal_error_code : ℤ
internal_error_code = minus 32603

abbrev pub resource_not_found_code : ℤ
resource_not_found_code = minus 32002

pub data ToolCallError : Type 0 where
  invalid_params : String → ToolCallError
  internal : String → ToolCallError
  resource_not_found : String → ToolCallError

abbrev pub message : ToolCallError → String
message (invalid_params m) = m
message (internal m) = m
message (resource_not_found m) = m

abbrev pub error_code : ToolCallError → ℤ
error_code (invalid_params _) = invalid_params_code
error_code (internal _) = internal_error_code
error_code (resource_not_found _) = resource_not_found_code

abbrev pub jsonrpc_message : ToolCallError → String
jsonrpc_message (invalid_params _) = "Invalid params"
jsonrpc_message (internal _) = "Internal error"
jsonrpc_message (resource_not_found _) = "Resource not found"

pub record ServerInfo : Type 0 where
  pub name : String
  pub version : String
  pub instructions : Option String

pub record ServerToolSpec : Type 0 where
  pub name : String
  pub title : Option String
  pub description : String
  pub input_schema : Value
  pub annotations : Option Value

pub record ResourceSpec : Type 0 where
  pub uri : String
  pub name : String
  pub description : Option String
  pub mime_type : Option String

pub record RequestHeaders : Type 0 where
  pub entries : Map String

pub record RequestContext : Type 0 where
  pub source_type : String
  pub headers : RequestHeaders

-- `if let Some(value) = .. { entry.insert(name, json!(value)); }`.
abbrev pub insert_some : String → Option Value → Members → Members
insert_some name none m = m
insert_some name (some v) m = insert name v m

abbrev pub text_value : Option String → Option Value
text_value none = none
text_value (some s) = some (string s)

unfoldable pub tool_to_json : ServerToolSpec → Value
tool_to_json t =
    let named = insert_some "title" (text_value t.title) (insert "name" (string t.name) end) in
    let described = insert "description" (string t.description) named in
    object (insert_some "annotations" t.annotations (insert "inputSchema" t.input_schema described))

unfoldable pub resource_to_json : ResourceSpec → Value
resource_to_json r =
    let named = insert "name" (string r.name) (insert "uri" (string r.uri) end) in
    object (
      insert_some "mimeType" (text_value r.mime_type)
        (insert_some "description" (text_value r.description) named))
