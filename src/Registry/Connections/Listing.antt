-- ===== src/Registry/Connections/Listing.antt =====
-- crates/tinymcp/src/registry/connections/types.rs and status.rs: what a host is shown of the sessions.
use tinymcp.Common.{
  ◌≡◌, refl, ℕ, Bool, true, false, List, [], ◌∷◌, map, Option, none, some, String, lookup, length,
  is_some, Result, ok, err, min, u32_max,
}
use tinymcp.Common.Effects.{◌>>=◌, resume}
use tinymcp.Common.Ordered.{IsSorted, with_key, sort_by-IsSorted, with_key-sort_by}
use tinymcp.Error.{Error}
use tinymcp.Registry.{
  InstalledServer, ConnStatus, ServerStatus, ConnectedServerOverview, McpAuthHint,
}
use tinymcp.Registry.Connections.{Connection, ConnectFailure, Connections, Surroundings}
use tinymcp.Registry.Connections.Status.{classify, Standing}
use tinymcp.Registry.Connections.Sessions.{ask}
use tinymcp.Registry.Connections.Views.{
  tool_count, status_of, all_status, overview_of, connected_overview,
}

-- The reason to sign in, where the last failure was a 401.
abbrev pub has_reason : Option ConnectFailure → Bool
has_reason none = false
has_reason (some failure) = is_some failure.auth

abbrev pub count_of : Option Connection → ℕ
count_of none = 0
count_of (some connection) = min (length connection.tools) u32_max

abbrev pub message_of : Option ConnectFailure → Option String
message_of none = none
message_of (some failure) = some failure.message

-- The status of an install with a session and a failure, each where it has one.
abbrev pub expected : Bool → Bool → Option ConnectFailure → ServerStatus
expected false live failure = ServerStatus.disabled
expected true true failure = ServerStatus.connected
expected true false none = ServerStatus.disconnected
expected true false (some failure) = elim failure.auth [
  | some hint ↦ ServerStatus.unauthorized
  | none ↦ ServerStatus.error
]

-- The counted tools are those of a session that is shown, the text of a failure is shown only with
-- the status of an error, and a reason to sign in only with the status of a 401.
abbrev pub Shows : Option Connection → Option ConnectFailure → ServerStatus → ConnStatus → Type 0
Shows session failure ServerStatus.connected st =
    (st.tool_count ≡ count_of session) × (st.last_error ≡ none) × (st.auth_hint ≡ none)
Shows session failure ServerStatus.unauthorized st =
    (st.tool_count ≡ 0) × (st.last_error ≡ none) × (is_some st.auth_hint ≡ true)
Shows session failure ServerStatus.error st =
    (st.tool_count ≡ 0) × (st.last_error ≡ message_of failure) × (st.auth_hint ≡ none)
Shows session failure _ st = (st.tool_count ≡ 0) × (st.last_error ≡ none) × (st.auth_hint ≡ none)

abbrev pub IsStatus : Connections → InstalledServer → ConnStatus → Type 0
IsStatus c server st =
    let session = lookup server.server_id c.live in
    let failure = lookup server.server_id c.failures in
    (st.server_id ≡ server.server_id)
    × (st.status ≡ expected server.enabled (is_some session) failure)
    × Shows session failure (expected server.enabled (is_some session) failure) st

abbrev pub AreStatuses : Connections → List InstalledServer → List ConnStatus → Type 0
AreStatuses c [] [] = Unit
AreStatuses c (server ∷ servers) (st ∷ l) = IsStatus c server st × AreStatuses c servers l
AreStatuses c _ _ = ⊥

-- The standing that `classify` gives, with the identity of the install.
abbrev named : InstalledServer → Standing → ConnStatus
named server standing = record {
  server_id = server.server_id;
  qualified_name = server.qualified_name;
  display_name = server.display_name;
  status = standing.status;
  tool_count = standing.tool_count;
  last_error = standing.last_error;
  auth_hint = standing.auth_hint;
}

abbrev Fits : InstalledServer → Bool → Option Connection → Option ConnectFailure → Type 0
Fits server enabled session failure =
    let st = named server (classify enabled (tool_count session) failure) in
    (st.status ≡ expected enabled (is_some session) failure)
    × Shows session failure (expected enabled (is_some session) failure) st

failed-Fits :
    (server : InstalledServer) (message : String) (auth : Option McpAuthHint)
    → Fits server true none (some (record { message = message; auth = auth }))
unfolding classify
failed-Fits server message none = (refl, (refl, refl, refl))
failed-Fits server message (some hint) = (refl, (refl, refl, refl))

classified :
    (server : InstalledServer) (enabled : Bool) (session : Option Connection)
    (failure : Option ConnectFailure)
    → Fits server enabled session failure
unfolding classify
classified server false session failure = (refl, (refl, refl, refl))
classified server true (some connection) failure = (refl, (refl, refl, refl))
classified server true none none = (refl, (refl, refl, refl))
classified server true none (some failure) = failed-Fits server failure.message failure.auth

statuses :
    (c : Connections) (installed : List InstalledServer)
    → AreStatuses c installed (map (status_of c) installed)
statuses c [] = tt
statuses c (server ∷ l) =
    let fits =
      classified server server.enabled (lookup server.server_id c.live)
        (lookup server.server_id c.failures) in
    ((refl, fits.0, fits.1), statuses c l)

-- What the store lists is shown in order; a store that cannot be listed is an error.
abbrev pub Lists :
    Connections → Result (List InstalledServer) Error → Result (List ConnStatus) Error → Type 0
Lists c (ok installed) (ok l) = AreStatuses c installed l
Lists c (err e) (err f) = f ≡ e
Lists c _ _ = ⊥

listed :
    {W : Type 0} (c : Connections) (w : W) (r : Result (List InstalledServer) Error)
    → Lists c r
        (resume {S = Connections × W} {B = List ConnStatus}
          (λ installed s. (ok (map (status_of s.0) installed), s))
          r
          (c, w)).0
listed c w (ok installed) = statuses c installed
listed c w (err e) = refl

module _ {W : Type 0} (env : Surroundings W) where
  all_status-Lists :
      (s : Connections × W)
      → Lists
          (env.others (env.store.list_servers s.1).1 s.0)
          (env.store.list_servers s.1).0
          (all_status env s).0
  unfolding all_status ◌>>=◌ ask
  all_status-Lists s = listed _ _ (env.store.list_servers s.1).0

  -- The status of every listed install is shown in order: disabled, or else connected, or else
  -- unauthorized, failed or disconnected by its last failure, with the tools that are counted only
  -- when connected, the failure's text only when failed, and the reason only when unauthorized. The
  -- overview of the sessions is sorted by their qualified names, and of each name it has the
  -- sessions that there are, in their order.
  pub shown :
      (s : Connections × W) (c : Connections) (name : String)
      → Lists
          (env.others (env.store.list_servers s.1).1 s.0)
          (env.store.list_servers s.1).0
          (all_status env s).0
        × IsSorted (λ (o : ConnectedServerOverview). o.qualified_name) (connected_overview c)
        × (with_key (λ (o : ConnectedServerOverview). o.qualified_name) name (connected_overview c)
            ≡ with_key
                (λ (o : ConnectedServerOverview). o.qualified_name)
                name
                (map overview_of c.live))
  unfolding connected_overview
  shown s c name = (
    all_status-Lists s,
    sort_by-IsSorted _ (map overview_of c.live),
    with_key-sort_by _ name (map overview_of c.live),
  )
