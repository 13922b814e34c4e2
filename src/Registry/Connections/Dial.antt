-- ===== src/Registry/Connections/Dial.antt =====
-- crates/tinymcp/src/registry/connections/dial.rs: what to dial, and with which credentials.
use tinymcp.Common.{
  ℕ, Bool, true, false, ◌&&◌, ◌||◌, not, List, [], ◌∷◌, Option, none, some, String, str_eq, ◌==◌,
  if◌then◌else◌, Map,
}
use tinymcp.Common.Chars.{starts_with, trim}
use tinymcp.Registry.{McpAuthConfig, anonymous, header, headers, HttpHeader}
use tinymcp.Transport.Wire.{Url}

-- `INTERNAL_KEY_PREFIX`, `REMOTE_TIMEOUT_SECS`.
abbrev pub internal_key_prefix : String
internal_key_prefix = "__"

abbrev pub remote_timeout_secs : ℕ
remote_timeout_secs = 30

unfoldable pub is_internal_key : String → Bool
is_internal_key name = starts_with name internal_key_prefix

-- The filter of `build_http_auth`.
unfoldable pub usable : String → String → Bool
usable name value = not (starts_with name internal_key_prefix) && not (str_eq (trim value) "")

unfoldable pub usable_headers : Map String → List HttpHeader
usable_headers [] = []
usable_headers ((name, value) ∷ env) =
    let rest = usable_headers env in
    if usable name value then (record { name = name; value = value }) ∷ rest else rest

abbrev pub auth_of : List HttpHeader → McpAuthConfig
auth_of [] = anonymous
auth_of (h ∷ []) = header h.name h.value
auth_of (h ∷ k ∷ l) = headers (h ∷ k ∷ l)

unfoldable pub build_http_auth : Map String → McpAuthConfig
unfolding usable_headers
build_http_auth env = auth_of (usable_headers env)

-- The stored values that a child process is given.
unfoldable pub spawn_env : Map String → Map String
spawn_env [] = []
spawn_env ((name, value) ∷ env) =
    let rest = spawn_env env in if is_internal_key name then rest else (name, value) ∷ rest

abbrev pub text_option_eq : Option String → Option String → Bool
text_option_eq none none = true
text_option_eq none (some b) = false
text_option_eq (some a) none = false
text_option_eq (some a) (some b) = str_eq a b

abbrev pub number_option_eq : Option ℕ → Option ℕ → Bool
number_option_eq none none = true
number_option_eq none (some b) = false
number_option_eq (some a) none = false
number_option_eq (some a) (some b) = a == b

unfoldable pub same_origin : Url → Url → Bool
same_origin from to =
    str_eq from.scheme to.scheme
    && text_option_eq from.host_str to.host_str
    && number_option_eq from.port to.port

abbrev pub safe_of : Option Url → Option Url → String → String → String
safe_of (some from) (some to) original resolved =
    if same_origin from to || str_eq to.scheme "https" then resolved else original
safe_of (some from) none original resolved = original
safe_of none to original resolved = original

unfoldable pub credential_safe_dial_url : (String → Option Url) → String → String → String
credential_safe_dial_url parse_url original resolved =
    safe_of (parse_url original) (parse_url resolved) original resolved
