-- ===== src/Registry/Connections/Dialling.antt =====
-- crates/tinymcp/src/registry/connections/dial.rs: what the dial of a remote install opens.
use tinymcp.Common.{
  ◌≡◌, Bool, Option, none, some, String, Map, is_some, Result, ok, err, unwrap_or, ◌↔◌, List,
}
use tinymcp.Common.Effects.{Keeps}
use tinymcp.Error.{Error}
use tinymcp.Oauth.Guard.{SocketAddr}
use tinymcp.Registry.{InstalledServer, McpAuthConfig}
use tinymcp.Registry.Connections.{ActiveClient, Connections, HttpDial, Surroundings}
use tinymcp.Registry.Connections.Credentials.{sent, Carried, Stored, MayGo, KeepsOrigin}
use tinymcp.Registry.Connections.Sessions.{values_or_none, is_https}

module _ {W : Type 0} (env : Surroundings W) (server : InstalledServer) (url : String) where
  -- The headers of a connection carry a value under a name exactly when the store tells it under that
  -- name, the name does not begin with two underscores and the value is not blank.
  abbrev pub SendsStored : McpAuthConfig → Type 0
  SendsStored auth =
      (w : W) × ((name value : String)
        → Carried name value (sent auth) ↔ (
            Stored name value (values_or_none (env.store.load_env_values server.server_id w).0)
            × MayGo name value))

  -- At checked addresses it is the endpoint that was stored; without them it may be the one that this
  -- redirects to, of the same origin or over HTTPS.
  abbrev pub GoesTo : Option (List SocketAddr) → String → Type 0
  GoesTo (some addresses) target = target ≡ url
  GoesTo none target =
      (w : W) × KeepsOrigin env.transports.parse_url url
        (unwrap_or (env.transports.resolve_final_url url w).0 url) target

  -- A connection that the dial may open.
  abbrev pub IsSafeDial : HttpDial → Type 0
  IsSafeDial dial =
      SendsStored dial.auth
      × (is_some dial.addresses ≡ is_https (env.transports.parse_url url))
      × GoesTo dial.addresses dial.url

-- What is known of the calls around a dial: they keep `Seen`, and so does opening a connection that
-- the dial may open.
pub record Watches {W : Type 0} (env : Surroundings W) (server : InstalledServer) (url : String)
    (Seen : W → Type 0) : Type 0 where
  pub load_env_values : Keeps Seen (env.store.load_env_values server.server_id)
  pub refresh_if_expired : Keeps Seen (env.transports.refresh_if_expired server.server_id)
  pub guard_endpoint : (what : String) → Keeps Seen (env.transports.guard_endpoint url what)
  pub resolve_final_url : (w : W) → Seen w → Seen (env.transports.resolve_final_url url w).1
  pub initialize : (client : ActiveClient) → Keeps Seen (env.transports.initialize client)
  pub open_http :
      (dial : HttpDial)
      → IsSafeDial env server url dial
      → Keeps Seen (env.transports.open_http dial)

module _ {W : Type 0} (env : Surroundings W) (server : InstalledServer) (url : String)
    (Seen : W → Type 0) (watches : Watches env server url Seen) where
  abbrev State : Type 0
  State = Connections × W

  abbrev Watched : State → Type 0
  Watched s = Seen s.1

  abbrev End : {A : Type 0} → Result A Error → State → Type 0
  End r s = Seen s.1

  -- The values that were told.
  abbrev Told : Result (Map String) Error → State → Type 0
  Told r s = Seen s.1 × ((w : W) × ((env.store.load_env_values server.server_id w).0 ≡ r))

  abbrev Checked : Bool → Result (Option (List SocketAddr)) Error → State → Type 0
  Checked https (ok addresses) s = Seen s.1 × (is_some addresses ≡ https)
  Checked https (err e) s = Seen s.1

  abbrev Targeted : Option (List SocketAddr) → Result String Error → State → Type 0
  Targeted addresses (ok target) s = Seen s.1 × GoesTo env server url addresses target
  Targeted addresses (err e) s = Seen s.1

  abbrev Resolved : Result (Option String) Error → State → Type 0
  Resolved (ok resolved) s =
      Seen s.1 × ((w : W) × ((env.transports.resolve_final_url url w).0 ≡ resolved))
  Resolved (err e) s = Seen s.1
