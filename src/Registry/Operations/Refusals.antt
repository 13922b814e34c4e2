-- ===== src/Registry/Operations/Refusals.antt =====
-- crates/tinymcp/src/registry/ops/types.rs: calls that are refused before they do anything.
use tinymcp.Common.{
  ◌≡◌, refl, Bool, Option, none, some, String, Map, lookup, Result, ok, err, eq_iff, arith, map_err,
}
use tinymcp.Common.Chars.{trim}
use tinymcp.Common.Effects.{resume, ◌>>=◌, of_result, done}
use tinymcp.Error.{Error, unknown_server, not_connected, invalid_arguments, ArgsError}
use tinymcp.Json.{Value, Members, object}
use tinymcp.AgentTools.Arguments.{normalize_tool_arguments}
use tinymcp.Transport.Wire.{McpServerToolResult}
use tinymcp.Registry.Connections.{Connection, Connections, Surroundings}
use tinymcp.Registry.Connections.Sessions
use tinymcp.Registry.Connections.Sessions.{ask}
use tinymcp.Registry.Operations.{Registry, ToolCallOutcome, tool_outcome, require_non_empty}
use tinymcp.Registry.Operations.Changing.{uninstall, set_enabled, update_env}
use tinymcp.Registry.Operations.Calls.{connect, disconnect, list_tools, tool_call, read_resource}

abbrev pub blank : Error
blank = unknown_server "<blank server_id>"

module _ {W : Type 0} (env : Surroundings W) (registry : Registry W) (s : Connections × W)
    (server_id : String) where
  -- An identifier that is blank is refused by every operation on an install, with the state as it was.
  abbrev pub AreRefused : Type 0
  AreRefused =
      (uninstall env registry server_id s ≡ (err blank, s))
      × ((enabled : Bool) → set_enabled env registry server_id enabled s ≡ (err blank, s))
      × ((values : Map String) → update_env env registry server_id values s ≡ (err blank, s))
      × (connect env registry server_id s ≡ (err blank, s))
      × (disconnect env registry server_id s ≡ (err blank, s))
      × (list_tools env registry server_id s ≡ (err blank, s))
      × ((tool : String) (arguments : Value)
          → tool_call env registry server_id tool arguments s ≡ (err blank, s))
      × ((uri : String) → read_resource env registry server_id uri s ≡ (err blank, s))

  require_blank : trim server_id ≡ "" → require_non_empty server_id "server_id" ≡ err blank
  unfolding require_non_empty
  require_blank h = ground (arith, eq_iff (trim server_id) "")

  -- An identifier that is empty or white space is refused by every operation on an install, and the
  -- sessions and the world are as they were.
  pub blank-AreRefused : trim server_id ≡ "" → AreRefused
  unfolding uninstall set_enabled update_env connect disconnect list_tools tool_call read_resource
      ◌>>=◌
  blank-AreRefused h =
      let e = require_blank h in
      (
        rw e refl,
        λ enabled. rw e refl,
        λ values. rw e refl,
        rw e refl,
        rw e refl,
        rw e refl,
        λ tool arguments. rw e refl,
        λ uri. rw e refl,
      )

  abbrev pub outcome : Result McpServerToolResult Error → Result ToolCallOutcome Error
  outcome (ok result) = ok (tool_outcome result)
  outcome (err e) = err e

  -- What a call of a tool comes to, by its arguments and the session.
  abbrev pub expected :
      String
      → String
      → Result Members ArgsError
      → Option Connection
      → Result ToolCallOutcome Error × (Connections × W)
  expected id name (err reason) session = (err (invalid_arguments name reason), s)
  expected id name (ok members) none = (err (not_connected id), s)
  expected id name (ok members) (some connection) =
      let (r, w) = env.transports.call_tool connection.client name (object members) s.1 in
      (outcome r, (env.others w s.0, w))

  finished :
      (r : Result McpServerToolResult Error) (t : Connections × W)
      → ◌≡◌ {A = Result ToolCallOutcome Error × (Connections × W)}
          (resume (λ result u. (ok (tool_outcome result), u)) r t)
          (outcome r, t)
  finished (ok result) t = refl
  finished (err e) t = refl

  reached :
      (id name : String) (n : Result Members ArgsError) (o : Option Connection)
      → lookup id s.0.live ≡ o
      → (of_result (map_err (invalid_arguments name) n) >>= (λ members.
            Sessions.call_tool env id name (object members)
            >>= (λ result. done (tool_outcome result))))
          s
        ≡ expected id name n o
  unfolding ◌>>=◌ Sessions.call_tool ask
  reached id name (err reason) o e = refl
  reached id name (ok members) none e = rw e refl
  reached id name (ok members) (some connection) e = rw e (finished _ _)

  -- A tool call with names that are not blank reaches the server exactly when its arguments can be
  -- normalised to an object and there is a session: it sends that object. It fails otherwise, with
  -- the sessions and the world as they were.
  pub tool_call-expected :
      (id tool_name name : String) (arguments : Value)
      → require_non_empty server_id "server_id" ≡ ok id
      → require_non_empty tool_name "tool_name" ≡ ok name
      → tool_call env registry server_id tool_name arguments s
        ≡ expected id name
            (normalize_tool_arguments registry.codec (some arguments))
            (lookup id s.0.live)
  unfolding tool_call ◌>>=◌
  tool_call-expected id tool_name name arguments e f =
      rw (e, f) (reached id name (normalize_tool_arguments registry.codec (some arguments)) _ refl)
