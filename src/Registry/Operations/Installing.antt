-- ===== src/Registry/Operations/Installing.antt =====
-- crates/tinymcp/src/registry/ops/types.rs: what an install leaves as its record.
use tinymcp.Common.{
  ◌≡◌, refl, ◌⊎◌, inl, inr, Bool, true, false, Option, none, some, String, Map, Result, ok, err, ap,
  sym,
}
use tinymcp.Common.Int.{ℤ}
use tinymcp.Common.Ordered.{key_names}
use tinymcp.Common.Effects.{Yields, Yields-bind, Yields-done, of_result, ◌>>=◌, resume}
use tinymcp.Error.{Error, malformed_response}
use tinymcp.Json.{Value}
use tinymcp.Registry.{InstalledServer, RegistryServerDetail, RegistryConnection}
use tinymcp.Registry.Install.{Launch, build_install_transport}
use tinymcp.Registry.Install.Safety.{IsSafe, IsSafeLaunch, build_install_transport-IsSafe}
use tinymcp.Registry.Connections.{Connections, Surroundings}
use tinymcp.Registry.Connections.Sessions.{ask, tell}
use tinymcp.Registry.Operations.{
  Registry, InstallOutcome, require_non_empty, split_routing_name, refresh_install, fresh_server,
  after_insert, install_new, install_named, install, or_fail,
}
use tinymcp.Registry.Operations.Refreshing.{
  Good, skip, given, IsRefreshed, Always, refresh_install-IsRefreshed,
}

module _ {W : Type 0} (env : Surroundings W) (registry : Registry W) where
  -- A refreshed record that the store told under the name right after it had refused a new one.
  abbrev pub IsWinner : String → Map String → Option Value → InstallOutcome → Type 0
  IsWinner name values config o =
      (w : W) × (refused existing : InstalledServer) × (refused.qualified_name ≡ name)
      × ((registry.insert_catalog_server_if_absent refused w).0 ≡ ok false)
      × ((registry.find_server_by_qualified_name name
            (registry.insert_catalog_server_if_absent refused w).1).0
          ≡ ok (some existing))
      × IsRefreshed env registry values config existing o

  -- A new record of that name, enabled, that runs only what an install may run.
  abbrev pub IsFresh : String → Map String → Option Value → InstallOutcome → Type 0
  IsFresh name values config o =
      (o.already_installed ≡ false)
      × (o.server.qualified_name ≡ name)
      × (o.server.enabled ≡ true)
      × (o.server.last_connected_at ≡ none)
      × (o.server.env_keys ≡ key_names values)
      × (o.server.config ≡ config)
      × IsSafeLaunch env.transports.parse_url registry.parse_ip o.server.transport o.server.command
          o.server.args

  -- The outcome of an install, by what the store tells first under the name.
  abbrev pub Outcome :
      String
      → Map String
      → Option Value
      → Result (Option InstalledServer) Error
      → InstallOutcome
      → Type 0
  Outcome name values config (ok (some existing)) o =
      IsRefreshed env registry values config existing o
  Outcome name values config (ok none) o =
      IsFresh name values config o ⊎ IsWinner name values config o
  Outcome name values config (err e) o = ⊥

  abbrev pub Installed :
      String
      → Map String
      → Option Value
      → Result (Option InstalledServer) Error
      → Result InstallOutcome Error
      → Type 0
  Installed name values config found (ok o) = Outcome name values config found o
  Installed name values config found (err e) = Unit

  abbrev Safe : Launch → Type 0
  Safe launch = IsSafe env.transports.parse_url registry.parse_ip (ok launch)

  good_launch :
      (r : Result Launch Error) (s : Connections × W)
      → IsSafe env.transports.parse_url registry.parse_ip r
      → Good env registry Safe r s
  good_launch (ok launch) s h = h
  good_launch (err e) s h = tt

  launch-Safe :
      (name : String) (connection : RegistryConnection)
      → Yields (Always env registry) (Good env registry Safe) (
          of_result
            (build_install_transport env.transports.parse_url registry.parse_ip name connection))
  unfolding of_result
  launch-Safe name connection = record {
    at = λ s h.
        good_launch _ s (
          build_install_transport-IsSafe env.transports.parse_url registry.parse_ip name
            connection);
  }

  abbrev New : String → Map String → Option Value → InstallOutcome → Type 0
  New name values config o = IsFresh name values config o ⊎ IsWinner name values config o

  -- What the refused record and the answer about it are, in the state after it.
  abbrev Refused : InstalledServer → Result Bool Error → Connections × W → Type 0
  Refused server (ok false) s =
      (w : W) × ((registry.insert_catalog_server_if_absent server w).0 ≡ ok false)
      × (s.1 ≡ (registry.insert_catalog_server_if_absent server w).1)
  Refused server _ s = Unit

  answer-Refused :
      (server : InstalledServer) (w : W) (r : Result Bool Error) (c : Connections)
      → (registry.insert_catalog_server_if_absent server w).0 ≡ r
      → Refused server r (c, (registry.insert_catalog_server_if_absent server w).1)
  answer-Refused server w (ok false) c e = (w, e, refl)
  answer-Refused server w (ok true) c e = tt
  answer-Refused server w (err f) c e = tt

  insert-Refused :
      (server : InstalledServer)
      → Yields
          (Always env registry)
          (Refused server)
          (ask env (registry.insert_catalog_server_if_absent server))
  unfolding ask
  insert-Refused server = record { at = λ s h. answer-Refused server s.1 _ _ refl }

  -- The record that the store tells in the state after the refusal.
  abbrev Won :
      String → InstalledServer → Result (Option InstalledServer) Error → Connections × W → Type 0
  Won name server r s =
      (w : W) × ((registry.insert_catalog_server_if_absent server w).0 ≡ ok false)
      × ((registry.find_server_by_qualified_name name
            (registry.insert_catalog_server_if_absent server w).1).0
          ≡ r)

  find-Won :
      (name : String) (server : InstalledServer)
      → Yields
          (Refused server (ok false))
          (Won name server)
          (ask env (registry.find_server_by_qualified_name name))
  unfolding ask
  find-Won name server = record {
    at = λ s h. (h.0, h.1, ap (λ w. (registry.find_server_by_qualified_name name w).0) (sym h.2));
  }

  winner_outcome :
      (name : String) (values : Map String) (config : Option Value)
      (server existing : InstalledServer) (r : Result InstallOutcome Error) (s t : Connections × W)
      → server.qualified_name ≡ name
      → Won name server (ok (some existing)) s
      → Good env registry (IsRefreshed env registry values config existing) r t
      → Good env registry (New name values config) r t
  winner_outcome name values config server existing (ok o) s t named h refreshed =
      inr (h.0, server, existing, named, h.1, h.2, refreshed)
  winner_outcome name values config server existing (err e) s t named h refreshed = tt

  winner-New :
      (name : String) (values : Map String) (config : Option Value) (server : InstalledServer)
      (o : Option InstalledServer)
      → server.qualified_name ≡ name
      → Yields (Won name server (ok o)) (Good env registry (New name values config)) (
          or_fail (malformed_response "an install lost a race but the winning record is gone") o
          >>= λ found. refresh_install env registry found values config)
  unfolding ◌>>=◌
  winner-New name values config server none named = record { at = λ s h. tt }
  winner-New name values config server (some existing) named = record {
    at = λ s h.
        let r = refresh_install env registry existing values config s in
        winner_outcome name values config server existing r.0 s r.1 named h
          ((refresh_install-IsRefreshed env registry values config existing).at s tt);
  }

  after_insert-New :
      (won : Bool) (name : String) (values : Map String) (config : Option Value) (id : String)
      (now : ℤ) (found : RegistryServerDetail) (launch : Launch)
      → Safe launch
      → Yields
          (Refused (fresh_server env registry id name now values config found launch) (ok won))
          (Good env registry (New name values config))
          (after_insert env registry won name values config
            (fresh_server env registry id name now values config found launch))
  after_insert-New true name values config id now found launch safe =
      skip env registry (New name values config) _ _
        (λ u. Yields-done _ (λ s h. inl (refl, refl, refl, refl, refl, refl, safe)))
  after_insert-New false name values config id now found launch safe =
      let server = fresh_server env registry id name now values config found launch in
      Yields-bind (Won name server) _ _ (find-Won name server)
        (λ o. winner-New name values config server o refl) (λ e s h. tt)

  insert-New :
      (name : String) (values : Map String) (config : Option Value) (id : String) (now : ℤ)
      (found : RegistryServerDetail) (launch : Launch)
      → Safe launch
      → Yields (Always env registry) (Good env registry (New name values config)) (
          ask env (
            registry.insert_catalog_server_if_absent
              (fresh_server env registry id name now values config found launch))
          >>= λ won.
              after_insert env registry won name values config
                (fresh_server env registry id name now values config found launch))
  insert-New name values config id now found launch safe =
      let server = fresh_server env registry id name now values config found launch in
      Yields-bind (Refused server) _ _ (insert-Refused server)
        (λ won. after_insert-New won name values config id now found launch safe) (λ e s h. tt)

  install_new-New :
      (source name : String) (values : Map String) (config : Option Value)
      → Yields
          (Always env registry)
          (Good env registry (New name values config))
          (install_new env registry source name values config)
  install_new-New source name values config =
      let P = New name values config in
      skip env registry P _ _ (λ found. skip env registry P _ _ (λ picked.
        given env registry Safe P _ _ (launch-Safe name picked) (λ launch safe.
          skip env registry P (tell env registry.new_id) _ (λ id.
            skip env registry P (tell env registry.now_ms) _
              (λ now. insert-New name values config id now found launch safe)))))

  some-Installed :
      (name : String) (values : Map String) (config : Option Value) (existing : InstalledServer)
      (r : Result InstallOutcome Error) (t : Connections × W)
      → Good env registry (IsRefreshed env registry values config existing) r t
      → Installed name values config (ok (some existing)) r
  some-Installed name values config existing (ok o) t h = h
  some-Installed name values config existing (err e) t h = tt

  none-Installed :
      (name : String) (values : Map String) (config : Option Value)
      (r : Result InstallOutcome Error) (t : Connections × W)
      → Good env registry (New name values config) r t
      → Installed name values config (ok none) r
  none-Installed name values config (ok o) t h = h
  none-Installed name values config (err e) t h = tt

  named-Installed :
      (source name : String) (values : Map String) (config : Option Value)
      (found : Result (Option InstalledServer) Error) (s : Connections × W)
      → Installed name values config found
          (resume (install_named env registry source name values config) found s).0
  named-Installed source name values config (ok (some existing)) s =
      some-Installed name values config existing _ _
        ((refresh_install-IsRefreshed env registry values config existing).at s tt)
  named-Installed source name values config (ok none) s =
      none-Installed name values config _ _ ((install_new-New source name values config).at s tt)
  named-Installed source name values config (err e) s = tt

  -- An install that succeeds gives back, when the store tells a record under the plain name of the
  -- server at the start, that record: with only its configuration and the names of its credentials
  -- changed, the first being the given env registry one or the one before, and the second being as before when
  -- no credentials are given env registry, and else those of some credentials extended by the given env registry ones. When
  -- the store tells none, it is a new record of that name, enabled and never connected, with the
  -- names of the given env registry credentials, the given env registry configuration and a launch that is safe; or, where
  -- the store refused the new record, the one that it told right after, changed as above.
  pub install-Installed :
      (qualified_name name : String) (values : Map String) (config : Option Value)
      (s : Connections × W)
      → require_non_empty qualified_name "qualified_name" ≡ ok name
      → Installed
          (split_routing_name name).1
          values
          config
          (registry.find_server_by_qualified_name (split_routing_name name).1 s.1).0
          (install env registry qualified_name values config s).0
  unfolding install ◌>>=◌ ask of_result
  install-Installed qualified_name name values config s e =
      let (source, canonical) = split_routing_name name in
      rw e (
        named-Installed source canonical values config
          (registry.find_server_by_qualified_name canonical s.1).0 _)
