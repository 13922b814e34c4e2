-- ===== src/Error.antt =====
-- crates/tinymcp/src/error/mod.rs: the crate-wide error and its classification. What a variant
-- carries of another crate is its rendered text, with the one question that the program asks of a
-- `reqwest::Error`.
pub mod Names
use tinymcp.Common.{ℕ, Bool, true, false, Option, some, String, ◌==◌, ◌||◌, ◌&&◌, leb}
use tinymcp.Registry.{CommandKind}

pub record RequestError : Type 0 where
  pub rendered : String
  pub timeout : Bool

pub record McpAuthChallenge : Type 0 where
  pub scheme : String
  pub realm : Option String
  pub resource_metadata : Option String

pub data RegistryOperation : Type 0 where
  browse search_page detail : RegistryOperation

pub data ArgsError : Type 0 where
  not_an_object : String → ArgsError
  string_not_an_object : Option String → ArgsError

pub data Error : Type 0 where
  unauthorized : String → Option String → Error
  missing_runtime : String → CommandKind → Error
  http : String → ℕ → String → Error
  transport : String → RequestError → Error
  endpoint_resolution : String → String → Error
  registry_timeout : String → RegistryOperation → ℕ → Error
  unsupported_protocol_version : String → Error
  malformed_response : String → Error
  rpc : String → Error
  missing_auth_challenge : Error
  auth_discovery : String → McpAuthChallenge → Error
  tool_not_allowed : String → String → Error
  not_connected : String → Error
  resource_too_large : String → ℕ → ℕ → Error
  server_disabled : String → Error
  invalid_arguments : String → ArgsError → Error
  config_doc : String → Error
  unknown_server : String → Error
  client_build : RequestError → Error
  serialization : String → Error
  store : String → String → Error
  credential_store : String → String → Error
  store_io : String → String → Error
  bus : String → Error
  invalid_argument : String → Error
  server_io : String → Error
  server_bind : String → String → Error

unfoldable pub is_unauthorized : Error → Bool
is_unauthorized (unauthorized _ _) = true
is_unauthorized _ = false

unfoldable pub is_missing_runtime : Error → Bool
is_missing_runtime (missing_runtime _ _) = true
is_missing_runtime _ = false

unfoldable pub is_timeout : Error → Bool
is_timeout (registry_timeout _ _ _) = true
is_timeout (transport _ source) = source.timeout
is_timeout _ = false

unfoldable pub is_registry_unavailable : Error → Bool
is_registry_unavailable (registry_timeout _ _ _) = true
is_registry_unavailable (transport _ _) = true
is_registry_unavailable (http _ status _) =
    status == 408 || status == 429 || leb 500 status && leb status 599
is_registry_unavailable _ = false

unfoldable pub advertises_oauth : Error → Bool
advertises_oauth (unauthorized _ (some _)) = true
advertises_oauth _ = false
