-- ===== src/Registry/Connections/Status.antt =====
-- crates/tinymcp/src/registry/connections/status.rs: where an install stands.
use tinymcp.Common.{ℕ, Bool, Option, none, some, String, not, if◌then◌else◌}
use tinymcp.Error.{Error, is_unauthorized, advertises_oauth}
use tinymcp.Registry.{McpAuthHint, hint_of, ServerStatus}
use tinymcp.Registry.Connections.{ConnectFailure}

-- `ConnectFailure::new`; `message` is the error's text.
unfoldable pub failure_of : Error → String → Bool → ConnectFailure
failure_of error message has_credential = record {
  message = message;
  auth =
      if is_unauthorized error
      then some (hint_of (advertises_oauth error) has_credential)
      else none;
}

pub record Standing : Type 0 where
  pub status : ServerStatus
  pub tool_count : ℕ
  pub last_error : Option String
  pub auth_hint : Option McpAuthHint

abbrev pub of_auth : String → Option McpAuthHint → Standing
of_auth message (some hint) = record {
  status = ServerStatus.unauthorized;
  tool_count = 0;
  last_error = none;
  auth_hint = some hint;
}
of_auth message none = record {
  status = ServerStatus.error;
  tool_count = 0;
  last_error = some message;
  auth_hint = none;
}

abbrev pub plain : ServerStatus → ℕ → Standing
plain status count = record {
  status = status;
  tool_count = count;
  last_error = none;
  auth_hint = none;
}

-- The `match` on the failure.
abbrev pub of_failure : Option ConnectFailure → Standing
of_failure (some failure) = of_auth failure.message failure.auth
of_failure none = plain ServerStatus.disconnected 0

abbrev pub of_count : Option ℕ → Option ConnectFailure → Standing
of_count (some count) failure = plain ServerStatus.connected count
of_count none failure = of_failure failure

unfoldable pub classify : Bool → Option ℕ → Option ConnectFailure → Standing
classify enabled connected_tool_count failure =
    if not enabled then plain ServerStatus.disabled 0 else of_count connected_tool_count failure
