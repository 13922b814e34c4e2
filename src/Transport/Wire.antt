-- ===== src/Transport/Wire.antt =====
-- crates/tinymcp-bus/src/transport/types.rs: what a remote server lists and answers.
use tinymcp.Common.{ℕ, ◌+◌, ◌*◌, Bool, true, false, List, [], ◌∷◌, Option, none, some, String}
use tinymcp.Json.{Value}
use Prim.Native.String.{len}

pub record McpRemoteTool : Type 0 where
  pub name : String
  pub title : Option String
  pub description : Option String
  pub input_schema : Value
  pub meta : Option Value

-- A parsed `reqwest::Url`, in the parts that the program reads.
pub record Url : Type 0 where
  pub scheme : String
  pub host_str : Option String
  pub port : Option ℕ
  pub username : String
  pub password : Option String

pub data McpToolContent : Type 0 where
  text_content : String → McpToolContent
  json_content : Value → McpToolContent

abbrev pub max_resource_bytes : ℕ
max_resource_bytes = 2 * 1024 * 1024

pub record McpResource : Type 0 where
  pub uri : String
  pub name : String
  pub title : Option String
  pub description : Option String
  pub mime_type : Option String
  pub meta : Option Value

pub record McpResourceContents : Type 0 where
  pub uri : String
  pub mime_type : Option String
  pub content : Option String
  pub blob : Option String
  pub meta : Option Value

abbrev pub len_of : Option String → ℕ
len_of none = 0
len_of (some s) = len s

unfoldable pub byte_len : McpResourceContents → ℕ
byte_len r = len_of r.content + len_of r.blob

pub record McpToolResult : Type 0 where
  pub content : List McpToolContent
  pub is_error : Bool
  pub markdown_formatted : Option String
  pub structured_content : Option Value
  pub meta : Option Value
  pub resources : List McpResourceContents

abbrev pub text_result : Bool → String → McpToolResult
text_result is_error message = record {
  content = text_content message ∷ [];
  is_error = is_error;
  markdown_formatted = none;
  structured_content = none;
  meta = none;
  resources = [];
}

-- `McpToolResult::success` and `error`.
unfoldable pub success : String → McpToolResult
success message = text_result false message

unfoldable pub error : String → McpToolResult
error message = text_result true message

pub record McpServerToolResult : Type 0 where
  pub raw_result : Value
  pub rendered : McpToolResult
