-- ===== src/Registry/Install.antt =====
-- crates/tinymcp/src/registry/ops/install.rs: how a server from a catalog will be run. Parsing a URL
-- and an address is given; the exception for test builds is left out, as in a release.
pub mod Picking
pub mod Safety
use Prim.Native.Char.{Char, code}
use Prim.Native.String.{◌++◌, char_at}
use tinymcp.Common.{
  Bool, true, false, ◌&&◌, ◌||◌, not, List, [], ◌∷◌, Option, none, some, String, str_eq, contains,
  if◌then◌else◌, is_some, unwrap_or, ◌==◌, Result, ok, err, ◌>>=◌, ◌>>◌,
}
use tinymcp.Common.Options
use tinymcp.Common.Chars.{chars, text_of, starts_with, trim}
use tinymcp.Common.Slices.{
  is_char, has_char, has_infix, after_last, last_part, before_first, trim_start_matches,
  trim_end_matches, lowercase,
}
use tinymcp.Json.{Value, Members, get_in, as_object, as_str, as_array, keys}
use tinymcp.Error.{Error, malformed_response}
use tinymcp.Oauth.Guard.{IpAddr, is_blocked_ip}
use tinymcp.Transport.Wire.{Url}
use tinymcp.Registry.{
  CommandKind, node, python, Transport, stdio, http_remote, RegistryConnection,
  RegistryServerDetail,
}

unfoldable pub transport_kind : RegistryConnection → String
transport_kind connection =
    if str_eq connection.kind "stdio"
    then "stdio"
    else (if contains ("http" ∷ "http_remote" ∷ "sse" ∷ []) connection.kind
        then "http_remote"
        else connection.kind)

-- `iter().find(..)`, and the alternatives in turn.
abbrev pub find_connection :
    (RegistryConnection → Bool) → List RegistryConnection → Option RegistryConnection
find_connection p [] = none
find_connection p (c ∷ l) = if p c then some c else find_connection p l

abbrev pub or_else :
    Option RegistryConnection → Option RegistryConnection → Option RegistryConnection
or_else (some c) rest = some c
or_else none rest = rest

abbrev pub is_kind : String → RegistryConnection → Bool
is_kind kind c = str_eq (transport_kind c) kind

abbrev pub is_published : String → RegistryConnection → Bool
is_published kind c = is_kind kind c && c.published

unfoldable pub pick_connection : List RegistryConnection → Option RegistryConnection
unfolding transport_kind
pick_connection l = or_else (find_connection (is_published "http_remote") l) (
    or_else (find_connection (is_kind "http_remote") l)
      (or_else (find_connection (is_published "stdio") l) (find_connection (is_kind "stdio") l)))

-- `push` of the names that are not there yet.
unfoldable pub push_new : List String → String → List String
push_new [] name = name ∷ []
push_new (n ∷ names) name = if str_eq n name then n ∷ names else n ∷ push_new names name

unfoldable pub without_repeats : List String → List String → List String
unfolding push_new
without_repeats names [] = names
without_repeats names (name ∷ l) = without_repeats (push_new names name) l

abbrev pub property_names : Option Members → List String
property_names none = []
property_names (some properties) = without_repeats [] (keys properties)

abbrev pub schema_properties : Option Value → Option Members
schema_properties none = none
schema_properties (some schema) = Options.◌>>=◌ (get_in "properties" schema) as_object

abbrev pub keys_of : Option RegistryConnection → List String
keys_of none = []
keys_of (some connection) = property_names (schema_properties connection.config_schema)

unfoldable pub collect_required_env_keys : RegistryServerDetail → List String
unfolding pick_connection without_repeats
collect_required_env_keys detail = keys_of (pick_connection detail.connections)

-- `char` tests: a slash or a backslash, an at sign, a dot, brackets, a dash.
abbrev is_slash : Char → Bool
is_slash c = is_char (char_at "/" 0) c || code c == 92

abbrev at_sign : Char → Bool
at_sign = is_char (char_at "@" 0)

abbrev pub is_dot : Char → Bool
is_dot = is_char (char_at "." 0)

abbrev pub interpreters : List String
interpreters =
    "node" ∷ "nodejs" ∷ "bun" ∷ "deno" ∷ "python" ∷ "python3" ∷ "sh" ∷ "bash" ∷ "zsh" ∷ "pwsh"
    ∷ "powershell" ∷ "cmd" ∷ []

-- The name without its folder and its version.
unfoldable pub package_name : String → String
package_name runnable = lowercase (before_first at_sign (last_part is_slash (chars runnable)))

unfoldable pub is_interpreter : String → Bool
unfolding package_name
is_interpreter runnable =
    if starts_with runnable "@" then false else contains interpreters (package_name runnable)

unfoldable pub asks_for_shell : String → Bool
asks_for_shell arg =
    starts_with arg "-"
      && not (starts_with arg "--")
      && has_char (is_char (char_at "c" 0)) (chars arg)
    || str_eq arg "--call"
    || starts_with arg "--call="

unfoldable pub any_asks : List String → Bool
any_asks [] = false
any_asks (arg ∷ l) = asks_for_shell arg || any_asks l

-- The first argument that is no option.
unfoldable pub first_positional : List String → Option String
first_positional [] = none
first_positional (arg ∷ l) =
    let rest = first_positional l in if not (starts_with arg "-") then some arg else rest

abbrev pub launches_interpreter : Option String → Bool
launches_interpreter none = false
launches_interpreter (some runnable) = is_interpreter runnable

abbrev pub launchers : List String
launchers = "npx" ∷ "uvx" ∷ "bunx" ∷ []

unfoldable pub validate_catalog_command : String → List String → Result (Unit {0}) Error
validate_catalog_command command args =
    if not (contains launchers command)
    then err (malformed_response "catalog subprocess launcher is not approved")
    else (if any_asks args
        then err (malformed_response "catalog subprocess cannot request a shell command")
        else (if launches_interpreter (first_positional args)
            then err (malformed_response "catalog subprocess cannot launch an interpreter")
            else ok tt))

-- The texts among the items of an array.
unfoldable pub texts_of : List Value → List String
texts_of [] = []
texts_of (v ∷ l) = elim (as_str v) [ some s ↦ s ∷ texts_of l | none ↦ texts_of l ]

abbrev pub args_of : Option (List Value) → List String
args_of none = []
args_of (some l) = texts_of l

-- The worked example, when it names a command.
abbrev pub example_of : Option Value → Option (String × List String)
example_of none = none
example_of (some example) = elim (Options.◌>>=◌ (get_in "command" example) as_str) [
  | none ↦ none
  | some command ↦ some (command, args_of (Options.◌>>=◌ (get_in "args" example) as_array))
]

abbrev pub command_of : String → Option (String × List String) → CommandKind × String × List String
command_of qualified_name (some (command, args)) = (
  (if has_infix (chars "uvx") (chars command) || has_infix (chars "python") (chars command)
      then python
      else node),
  command,
  args,
)
command_of qualified_name none = (node, "npx", "-y" ∷ qualified_name ∷ [])

unfoldable pub resolve_command :
    String → Option RegistryConnection → CommandKind × String × List String
unfolding texts_of
resolve_command qualified_name connection =
    command_of qualified_name
      (example_of (Options.◌>>=◌ connection (λ (c : RegistryConnection). c.example_config)))

-- What an install of a connection runs: the transport, the launcher, the command, the arguments.
pub record Launch : Type 0 where
  pub transport : Transport
  pub command_kind : CommandKind
  pub command : String
  pub args : List String

abbrev pub stdio_launch : CommandKind × String × List String → Result Launch Error
stdio_launch (kind, command, args) = do
  validate_catalog_command command args
  ok (record { transport = stdio; command_kind = kind; command = command; args = args })

-- The host without brackets and the dots at its end.
unfoldable pub plain_host : String → List Char
plain_host host = trim_end_matches is_dot (
    trim_end_matches (is_char (char_at "]" 0))
      (trim_start_matches (is_char (char_at "[" 0)) (chars host)))

abbrev pub is_local_suffix : Option (List Char) → Bool
is_local_suffix none = false
is_local_suffix (some suffix) =
    contains ("localhost" ∷ "local" ∷ "internal" ∷ []) (lowercase suffix)

abbrev pub is_blocked : Option IpAddr → Bool
is_blocked none = false
is_blocked (some ip) = is_blocked_ip ip

module _ (parse_url : String → Option Url) (parse_ip : String → Option IpAddr) where
  -- Whether a hosted endpoint targets a local address.
  unfoldable pub is_local_host : List Char → Bool
  is_local_host host =
      str_eq (lowercase host) "localhost"
      || is_local_suffix (after_last is_dot host)
      || is_blocked (parse_ip (text_of host))

  abbrev pub host_launch : String → Option String → Result Launch Error
  host_launch url none = err (malformed_response "hosted endpoint has no host")
  host_launch url (some host) =
      if is_local_host (plain_host host)
      then err (malformed_response "catalog hosted endpoint targets a local address")
      else ok (record { transport = http_remote url; command_kind = node; command = ""; args = [] })

  abbrev pub hosted_launch : String → Option Url → Result Launch Error
  hosted_launch url none = err (malformed_response "hosted endpoint is not a valid URL")
  hosted_launch url (some endpoint) =
      if not (str_eq endpoint.scheme "https")
        || not (str_eq endpoint.username "")
        || is_some endpoint.password
      then err (
          malformed_response "catalog hosted endpoints must use HTTPS without embedded credentials")
      else host_launch url endpoint.host_str

  unfoldable pub build_install_transport : String → RegistryConnection → Result Launch Error
  unfolding is_local_host plain_host resolve_command validate_catalog_command
  build_install_transport qualified_name connection =
      let url = unwrap_or connection.deployment_url "" in
      if str_eq (transport_kind connection) "http_remote"
      then (if str_eq (trim url) ""
          then err (
              malformed_response
                ("the hosted connection for `" ++ (qualified_name ++ "` declares no endpoint")))
          else hosted_launch url (parse_url url))
      else stdio_launch (resolve_command qualified_name (some connection))
