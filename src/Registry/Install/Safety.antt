-- ===== src/Registry/Install/Safety.antt =====
-- crates/tinymcp/src/registry/ops/install.rs: what a catalog can make an install run.
use tinymcp.Common.{
  ◌≡◌, ◌≢◌, refl, true, false, ◌||◌, not, List, [], ◌∷◌, Option, none, some, String, str_eq,
  contains, if_split, is_some, arith, All, eq_iff, Result, ok, err, unwrap_or, ◌>>◌, ◌⊎◌,
  Bool-cases, inl, inr,
}
use tinymcp.Common.Chars.{text_of, trim, starts_with, chars}
use tinymcp.Common.Slices.{lowercase, after_last, has_char, is_char}
use tinymcp.Error.{Error, malformed_response}
use tinymcp.Oauth.Guard.{IpAddr, is_blocked_ip}
use tinymcp.Transport.Wire.{Url}
use tinymcp.Registry.{CommandKind, Transport, stdio, http_remote, RegistryConnection}
use tinymcp.Registry.Install.{
  Launch, launchers, asks_for_shell, any_asks, first_positional, launches_interpreter,
  is_interpreter, validate_catalog_command, stdio_launch, plain_host, is_dot, is_local_host,
  is_local_suffix, host_launch, hosted_launch, build_install_transport, transport_kind,
  resolve_command, package_name, interpreters, char_at,
}

-- An argument that asks the runner for no shell: it is not `--call`, with a value or without, and no
-- bundle of short options with a `c` in it.
abbrev pub AsksNoShell : String → Type 0
AsksNoShell arg =
    (arg ≢ "--call")
    × (starts_with arg "--call=" ≡ false)
    × ((starts_with arg "-" ≡ false)
        ⊎ (starts_with arg "--" ≡ true)
        ⊎ (has_char (is_char (char_at "c" 0)) (chars arg) ≡ false))

-- A package of a scope, or one that has none of the twelve names of interpreters, without its folder
-- and its version and in lower case.
abbrev pub NamesNoInterpreter : String → Type 0
NamesNoInterpreter runnable =
    (starts_with runnable "@" ≡ true) ⊎ All (λ name. package_name runnable ≢ name) interpreters

-- Of the first argument that does not begin with a dash, where there is one.
abbrev pub FirstIs : (String → Type 0) → List String → Type 0
FirstIs P [] = Unit
FirstIs P (arg ∷ l) =
    ((starts_with arg "-" ≡ false) × P arg) ⊎ ((starts_with arg "-" ≡ true) × FirstIs P l)

-- A runner of packages with such arguments.
abbrev pub RunsPackage : String → List String → Type 0
RunsPackage command args =
    ((command ≡ "npx") ⊎ (command ≡ "uvx") ⊎ (command ≡ "bunx"))
    × All AsksNoShell args
    × FirstIs NamesNoInterpreter args

is_launcher :
    (command : String)
    → contains launchers command ≡ true
    → (command ≡ "npx") ⊎ (command ≡ "uvx") ⊎ (command ≡ "bunx")
is_launcher command h =
    ground (arith, eq_iff "npx" command, eq_iff "uvx" command, eq_iff "bunx" command)

asks_none : (arg : String) → asks_for_shell arg ≡ false → AsksNoShell arg
unfolding asks_for_shell
asks_none arg h = (λ e. ground (arith, eq_iff arg "--call"), ground arith, ground arith)

none_asks : (args : List String) → any_asks args ≡ false → All AsksNoShell args
unfolding any_asks
none_asks [] h = tt
none_asks (arg ∷ l) h = (asks_none arg (ground arith), none_asks l (ground arith))

not_contained :
    (names : List String) (name : String) → contains names name ≡ false → All (λ n. name ≢ n) names
not_contained [] name h = tt
not_contained (n ∷ names) name h = (
  λ e. ground (arith, eq_iff n name, eq_iff name n),
  not_contained names name (ground (arith, eq_iff n name)),
)

names_none : (runnable : String) → is_interpreter runnable ≡ false → NamesNoInterpreter runnable
unfolding is_interpreter
names_none runnable h = elim (Bool-cases (starts_with runnable "@")) [
  | inl scoped ↦ inl scoped
  | inr plain ↦ inr (not_contained interpreters (package_name runnable) (ground arith))
]

no_interpreter :
    (args : List String)
    → launches_interpreter (first_positional args) ≡ false
    → FirstIs NamesNoInterpreter args
unfolding first_positional
no_interpreter [] h = tt
no_interpreter (arg ∷ l) h = elim (Bool-cases (starts_with arg "-")) [
  | inl option ↦ inr (option, no_interpreter l (ground arith))
  | inr plain ↦ inl (plain, names_none arg (ground arith))
]

abbrev pub Accepts : String → List String → Result (Unit {0}) Error → Type 0
Accepts command args (ok u) = RunsPackage command args
Accepts command args (err (malformed_response why)) = Unit
Accepts command args (err _) = ⊥

validate-Accepts :
    (command : String) (args : List String)
    → Accepts command args (validate_catalog_command command args)
unfolding validate_catalog_command
validate-Accepts command args =
    if_split (Accepts command args) (not (contains launchers command)) (λ _. tt)
      (λ h1.
        if_split (Accepts command args) (any_asks args) (λ _. tt)
          (λ h2.
            if_split (Accepts command args) (launches_interpreter (first_positional args)) (λ _. tt)
              (λ h3.
                (is_launcher command (ground arith), none_asks args h2, no_interpreter args h3))))

module _ (parse_url : String → Option Url) (parse_ip : String → Option IpAddr) where
  -- The host is not this machine, by name or by address, nor in a domain of the local network.
  abbrev pub IsPublicHost : String → Type 0
  IsPublicHost host =
      (lowercase (plain_host host) ≢ "localhost")
      × (is_local_suffix (after_last is_dot (plain_host host)) ≡ false)
      × ((ip : IpAddr) → parse_ip (text_of (plain_host host)) ≡ some ip → is_blocked_ip ip ≡ false)

  -- An endpoint over HTTPS, with no credentials in it, on a public host.
  abbrev pub IsPublicEndpoint : String → Type 0
  IsPublicEndpoint url =
      (endpoint : Url) × (parse_url url ≡ some endpoint)
      × (endpoint.scheme ≡ "https")
      × (endpoint.username ≡ "")
      × (endpoint.password ≡ none)
      × ((host : String) × (endpoint.host_str ≡ some host) × IsPublicHost host)

  abbrev pub IsSafeLaunch : Transport → String → List String → Type 0
  IsSafeLaunch (http_remote url) command args = IsPublicEndpoint url × (command ≡ "") × (args ≡ [])
  IsSafeLaunch stdio command args = RunsPackage command args

  -- Everything else is refused as malformed.
  abbrev pub IsSafe : Result Launch Error → Type 0
  IsSafe (ok launch) = IsSafeLaunch launch.transport launch.command launch.args
  IsSafe (err (malformed_response why)) = Unit
  IsSafe (err _) = ⊥

  stdio-IsSafe :
      (kind : CommandKind) (command : String) (args : List String) (r : Result (Unit {0}) Error)
      → Accepts command args r
      → IsSafe (
          r
          >> ok (record { transport = stdio; command_kind = kind; command = command; args = args }))
  stdio-IsSafe kind command args (ok u) h = h
  stdio-IsSafe kind command args (err (malformed_response why)) h = tt
  stdio-IsSafe kind command args (err _) h = absurd h

  public_host :
      (host : String)
      → is_local_host parse_url parse_ip (plain_host host) ≡ false
      → IsPublicHost host
  unfolding is_local_host
  public_host host h = (
    λ e. ground (arith, eq_iff (lowercase (plain_host host)) "localhost"),
    ground arith,
    λ ip e. ground arith,
  )

  no_password : (o : Option String) → is_some o ≡ false → o ≡ none
  no_password none h = refl
  no_password (some s) h = cc

  host-IsSafe :
      (url : String) (endpoint : Url) (o : Option String)
      → parse_url url ≡ some endpoint
      → (endpoint.scheme ≡ "https") × (endpoint.username ≡ "") × (endpoint.password ≡ none)
      → endpoint.host_str ≡ o
      → IsSafe (host_launch parse_url parse_ip url o)
  host-IsSafe url endpoint none parsed plain h = tt
  host-IsSafe url endpoint (some host) parsed plain h =
      if_split IsSafe (is_local_host parse_url parse_ip (plain_host host)) (λ _. tt)
        (λ k. (
          (endpoint, parsed, plain.0, plain.1, plain.2, (host, h, public_host host k)),
          refl,
          refl,
        ))

  hosted-IsSafe :
      (url : String) (o : Option Url)
      → parse_url url ≡ o
      → IsSafe (hosted_launch parse_url parse_ip url o)
  hosted-IsSafe url none h = tt
  hosted-IsSafe url (some endpoint) h =
      if_split IsSafe
        (not (str_eq endpoint.scheme "https")
          || not (str_eq endpoint.username "")
          || is_some endpoint.password)
        (λ _. tt)
        (λ k.
          host-IsSafe url endpoint endpoint.host_str h
            (
              ground (arith, eq_iff endpoint.scheme "https"),
              ground (arith, eq_iff endpoint.username ""),
              no_password endpoint.password (ground arith),
            )
            refl)

  resolved-IsSafe : (x : CommandKind × String × List String) → IsSafe (stdio_launch x)
  resolved-IsSafe (kind, command, args) =
      stdio-IsSafe kind command args (validate_catalog_command command args)
        (validate-Accepts command args)

  -- Whatever a catalog says of a connection, an install of it dials an endpoint over HTTPS without
  -- credentials on a host that is not local, or runs npx, uvx or bunx, with no argument that is
  -- `--call`, with a value or without, or a bundle of short options with a `c`, and with a first
  -- argument without a dash, if there is one, that is scoped or is none of twelve names of
  -- interpreters; or it is refused as malformed.
  pub build_install_transport-IsSafe :
      (name : String) (connection : RegistryConnection)
      → IsSafe (build_install_transport parse_url parse_ip name connection)
  unfolding build_install_transport
  build_install_transport-IsSafe name connection =
      let url = unwrap_or connection.deployment_url "" in
      if_split IsSafe (str_eq (transport_kind connection) "http_remote")
        (λ _.
          if_split IsSafe (str_eq (trim url) "") (λ _. tt)
            (λ _. hosted-IsSafe url (parse_url url) refl))
        (λ _. resolved-IsSafe (resolve_command name (some connection)))
