-- ===== src/Tests/RegistryTests.antt =====
-- The registry at concrete inputs, of crates/tinymcp/src/registry.
use tinymcp.Common.{
  ◌≡◌, refl, true, false, [], ◌∷◌, Option, none, some, String, Map, lookup, ok, arith, map, ◌↔◌,
  remove, ◌*◌, ◌+◌,
}
use tinymcp.Common.Chars.{trim}
use tinymcp.Oauth.Guard.Blocks.{in_blocks, blocks, address, is_blocked-in_blocks}
use tinymcp.Oauth.Guard.Accepted.{IsGuarded, guard_endpoint-IsGuarded}
use tinymcp.Common.Ordered.{IsSorted, with_key}
use tinymcp.Json.{Members}
use tinymcp.Oauth.Guard.{v4, is_blocked_ip, Resolver, v6, guard_endpoint}
use tinymcp.Transport.Wire.{Url}
use tinymcp.Supervisor.{default_config}
use tinymcp.Supervisor.Cycle.{new, visit}
use tinymcp.Registry.{ConnectedServerOverview}
use tinymcp.Registry.Install.{pick_connection, build_install_transport}
use tinymcp.Registry.Install.Picking.{IsBest, pick_connection-IsBest}
use tinymcp.Registry.Install.Safety.{IsSafe, build_install_transport-IsSafe}
use tinymcp.Registry.Connections.{stdio_client, Connections}
use tinymcp.Registry.Connections.Sessions.{connect, connect_inner}
use tinymcp.Registry.Connections.Outcome.{Recorded, connect-Recorded}
use tinymcp.Registry.Connections.Supervised.{outside, TellsLast, visit-TellsLast}
use tinymcp.Registry.Connections.Views.{all_status, connected_overview, overview_of}
use tinymcp.Registry.Connections.Listing.{Lists, shown}
use tinymcp.Registry.Operations.{require_non_empty, install, split_routing_name}
use tinymcp.Registry.Operations.Installing.{Installed, install-Installed}
use tinymcp.Common.Slices.{has_char, before_first, after_last}
use tinymcp.Registry.{RegistryServerSummary}
use tinymcp.Registry.Install.{
  validate_catalog_command, any_asks, asks_for_shell, first_positional, is_interpreter,
  package_name,
}
use tinymcp.Tests.RegistryWorld.{World, demo, secure, connection, env, registry, start, leaves}

named : require_non_empty " s1 " "server_id" ≡ ok "s1"
unfolding require_non_empty trim
named = refl

connect-Recorded_example :
    Recorded env
      (demo true "s1")
      (leaves "s1")
      none
      (connect_inner env (demo true "s1") start).1.1
      (connect env (demo true "s1") start).0
      (connect env (demo true "s1") start).1
unfolding lookup
connect-Recorded_example = connect-Recorded env (demo true "s1") (leaves "s1") start

visit-TellsLast_example :
    let x = visit (outside env) (new default_config env.identity none) (demo true "s1") 0 start in
    TellsLast (lookup "s1" start.0.live) x.1 (lookup "s1" x.2.0.live)
visit-TellsLast_example =
    visit-TellsLast env (demo true "s1") (leaves "s1") (new default_config env.identity none) 0
      start

routed_name : require_non_empty "smithery::demo" "qualified_name" ≡ ok "smithery::demo"
unfolding require_non_empty trim
routed_name = refl

install-Installed_example :
    Installed env registry "demo" [] none
      (ok none)
      (install env registry "smithery::demo" [] none start).0
unfolding split_routing_name
install-Installed_example =
    install-Installed env registry "smithery::demo" "smithery::demo" [] none start routed_name

-- A session of which the client has number 1.
abbrev live : Connections × World
live = (
  record {
    live =
        (
          "s1",
          record {
            client = stdio_client 1;
            tools = [];
            tool_meta = [];
            qualified_name = "@demo/one";
            display_name = "One";
            description = none;
            instructions = none;
          },
        )
        ∷ [];
    failures = [];
  },
  start.1,
)

shown_example :
    Lists
      (env.others (env.store.list_servers live.1).1 live.0)
      (env.store.list_servers live.1).0
      (all_status env live).0
    × IsSorted (λ (o : ConnectedServerOverview). o.qualified_name) (connected_overview live.0)
    × (with_key
          (λ (o : ConnectedServerOverview). o.qualified_name)
          "@demo/one"
          (connected_overview live.0)
        ≡ with_key
            (λ (o : ConnectedServerOverview). o.qualified_name)
            "@demo/one"
            (map overview_of live.0.live))
shown_example = shown env live live.0 "@demo/one"

abbrev found : String → RegistryServerSummary
found name = record {
  qualified_name = name;
  display_name = name;
  description = none;
  icon_url = none;
  use_count = 0;
  is_deployed = true;
  source = "smithery";
  official = true;
  website_url = none;
  auth_kind = none;
  extra = Members.end;
}

abbrev parsed : String → Option Url
parsed url = some secure

pick_connection-IsBest_example :
    IsBest
      (connection "stdio" true ∷ connection "sse" false ∷ [])
      (pick_connection (connection "stdio" true ∷ connection "sse" false ∷ []))
pick_connection-IsBest_example =
    pick_connection-IsBest (connection "stdio" true ∷ connection "sse" false ∷ [])

build_install_transport-IsSafe_example :
    IsSafe parsed
      (λ host. none)
      (build_install_transport parsed (λ host. none) "@demo/one" (connection "sse" true))
build_install_transport-IsSafe_example =
    build_install_transport-IsSafe parsed (λ host. none) "@demo/one" (connection "sse" true)

-- The value of an option is taken for the package that the runner launches.
option_value : validate_catalog_command "npx" ("-p" ∷ "foo" ∷ "node" ∷ "-e" ∷ "x" ∷ []) ≡ ok tt
unfolding validate_catalog_command any_asks asks_for_shell first_positional is_interpreter
    package_name tinymcp.Common.Chars.starts_with has_char before_first after_last
option_value = refl

-- The metadata address of a cloud.
is_blocked-in_blocks_example :
    (is_blocked_ip (v4 169 254 169 254) ≡ in_blocks blocks (address 169 254 169 254))
    × (is_blocked_ip (v6 0 0 0 0 0 65535 (169 * 256 + 254) (169 * 256 + 254))
        ≡ in_blocks blocks (address 169 254 169 254))
    × (is_blocked_ip (v6 0 0 0 0 0 0 (169 * 256 + 254) (169 * 256 + 254))
        ≡ in_blocks blocks (address 169 254 169 254))
    × (is_blocked_ip (v6 100 65435 0 0 0 0 2056 2056) ≡ true)
is_blocked-in_blocks_example =
    is_blocked-in_blocks 169 254 169 254 (omega arith) (omega arith) (omega arith) (omega arith) 0 0
      0 0 2056 2056

abbrev resolver : Resolver World
resolver = record {
  parse_url = λ raw. ok secure;
  parse_ip = λ host. none;
  resolve = λ host port w. (ok (ok (v4 93 184 216 34 ∷ [])), w);
}

guard_endpoint-IsGuarded_example :
    IsGuarded (ok secure) (guard_endpoint resolver "token" "https://mcp.example.com" start.1).0
guard_endpoint-IsGuarded_example =
    guard_endpoint-IsGuarded resolver "token" start.1 "https://mcp.example.com"
