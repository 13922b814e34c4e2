-- ===== src/Registry/Operations/Credentials.antt =====
-- crates/tinymcp/src/registry/ops/types.rs: replacing an install's credentials.
use tinymcp.Common.{
  ◌≡◌, refl, sym, subst, inl, inr, not, List, Option, none, some, String, Map, lookup, if_split,
  Result, ok, err, [], ◌∙◌,
}
use tinymcp.Common.Ordered.{extend, key_names, texts_eq}
use tinymcp.Common.Effects.{
  Effect, Keeps, Keeps-both, Yields, Yields-bind, Yields-after, Yields-attempt, Yields-and,
  Yields-done, of_result, ◌>>=◌, ◌>>◌, resume,
}
use tinymcp.Error.{Error}
use tinymcp.Registry.{InstalledServer, McpTool, McpAuthHint}
use tinymcp.Registry.Connections.{Connection, Connections, Surroundings}
use tinymcp.Registry.Connections.Sessions
use tinymcp.Registry.Connections.Sessions.{Session, ask}
use tinymcp.Registry.Connections.Views.{auth_hint}
use tinymcp.Registry.Connections.Entries.{Leaves, Keeps-ask, disconnect-Gone}
use tinymcp.Registry.Connections.Outcome.{HasTools, Recorded, connect-Recorded}
use tinymcp.Registry.Connections.Worlds.{KeptBy, Around-ask, disconnect-Around, connect-Around}
use tinymcp.Registry.Operations.{
  Registry, UpdateEnvOutcome, connected, require_non_empty, refresh_keys,
}
use tinymcp.Registry.Operations.Changing.{reconnect, reconnect_outcome, update_env, status_after}

-- The store answers with the install that it was asked for.
abbrev pub Answers : String → Result InstalledServer Error → Type 0
Answers id (ok server) = server.server_id ≡ id
Answers id (err e) = Unit

-- What is known of the store: a write of credentials is in the world when it succeeds, no other call
-- loses it, and an install is found under its own name.
pub record KeepsValues {W : Type 0} (env : Surroundings W) (registry : Registry W) (id : String)
    (Holds : Map String → W → Type 0) : Type 0 where
  pub written :
      (values : Map String) (w : W)
      → (registry.set_env_values id values w).0 ≡ ok tt
      → Holds values (registry.set_env_values id values w).1
  pub kept : (values : Map String) → KeptBy (Holds values) env
  pub forgotten : (values : Map String) → Keeps (Holds values) (registry.forget_cached_tools id)
  pub renamed :
      (values : Map String) (names : List String)
      → Keeps (Holds values) (registry.update_env_keys id names)
  pub found : (w : W) → Answers id (env.store.get_server id w).0

-- The session that an outcome tells of.
abbrev pub TellsSession : UpdateEnvOutcome → Option Connection → Type 0
TellsSession outcome session = elim outcome.status [
  | connected ↦ HasTools outcome.tools session
  | _ ↦ session ≡ none
]

module _ {W : Type 0} (env : Surroundings W) (registry : Registry W) (id : String)
    (leaves : Leaves id env.others) (Holds : Map String → W → Type 0)
    (store : KeepsValues env registry id Holds) where
  abbrev session : Connections × W → Option Connection
  session s = lookup id s.0.live

  -- What an outcome without tools is reported as.
  told :
      (hint : Option McpAuthHint) (o : Option Connection)
      → o ≡ none
      → elim (status_after env registry hint) as (λ status. Type 0) [
        | connected ↦ HasTools [] o
        | _ ↦ o ≡ none
      ]
  told none o h = h
  told (some hint) o h = h

  asked : (w : W) → Answers id (env.store.get_server id w).0
  asked w = store.found w

  abbrev Clear : Map String → Connections × W → Type 0
  Clear values s = Holds values s.1 × (session s ≡ none)

  abbrev Final : Map String → Result UpdateEnvOutcome Error → Connections × W → Type 0
  Final values (ok outcome) s = Holds values s.1 × TellsSession outcome (session s)
  Final values (err e) s = Unit

  -- After an attempt to connect: a session with the tools, or none.
  abbrev Told : String → Result (List McpTool) Error → Connections × W → Type 0
  Told i (ok tools) s = HasTools tools (lookup i s.0.live)
  Told i (err e) s = lookup i s.0.live ≡ none

  recorded-Told :
      (server : InstalledServer) (own : Leaves server.server_id env.others)
      (before : Option Connection) (w : W) (r : Result (List McpTool) Error) (s : Connections × W)
      → before ≡ none
      → Recorded env server own before w r s
      → Told server.server_id r s
  recorded-Told server own before w (ok tools) s gone h = h.0
  recorded-Told server own before w (err e) s gone h = elim h.0 [ inl p ↦ p | inr p ↦ p ∙ gone ]

  connect-Told :
      (server : InstalledServer)
      → server.server_id ≡ id
      → Yields (λ s. session s ≡ none) (Told id) (Sessions.connect env server)
  connect-Told server e = record {
    at = λ s gone.
        let own = subst (λ i. Leaves i env.others) (sym e) leaves in
        let after = Sessions.connect env server s in
        subst (λ i. Told i after.0 after.1) e
          (recorded-Told server own _ _ after.0 after.1
            (subst (λ i. lookup i s.0.live ≡ none) (sym e) gone)
            (connect-Recorded env server own s));
  }

  reconnect_outcome-Final :
      (values : Map String) (server : InstalledServer) (r : Result (List McpTool) Error)
      → Yields
          (λ s. Holds values s.1 × Told id r s)
          (Final values)
          (reconnect_outcome env registry id server r)
  unfolding ◌>>=◌
  reconnect_outcome-Final values server (ok tools) = Yields-done _ (λ s h. h)
  reconnect_outcome-Final values server (err e) = record {
    at = λ s h. (h.0, told (auth_hint id s.0) (session s) h.1);
  }

  reconnect-Final :
      (values : Map String) (server : InstalledServer)
      → server.server_id ≡ id
      → Yields (Clear values) (Final values) (reconnect env registry id server)
  reconnect-Final values server e =
      if_split (Yields (Clear values) (Final values)) (not server.enabled)
        (λ _. Yields-done _ (λ s h. h))
        (λ _.
          Yields-attempt (λ r s. Holds values s.1 × Told id r s) _ _
            (Yields-and _ (connect-Around (Holds values) env (store.kept values) server)
              (connect-Told server e))
            (reconnect_outcome-Final values server))

  -- Calls of the store that keep the credentials leave the session away.
  clear :
      {A : Type 0} (values : Map String) (f : Effect W Error A)
      → Keeps (Holds values) f
      → Keeps (Clear values) (ask env f)
  clear values f k =
      Keeps-both _ (Around-ask (Holds values) env f k)
        (Keeps-ask env id leaves (λ session failure. session ≡ none) f)

  abbrev Found : Map String → Result InstalledServer Error → Connections × W → Type 0
  Found values r s = Clear values s × Answers id r

  refresh_keys-Found :
      (values : Map String) (names : List String) (found : InstalledServer)
      → Yields (Found values (ok found)) (Found values) (refresh_keys env registry id names found)
  refresh_keys-Found values names found =
      if_split (Yields (Found values (ok found)) (Found values)) (texts_eq found.env_keys names)
        (λ _. Yields-done found (λ s h. h))
        (λ _.
          Yields-bind (λ r s. Clear values s × (found.server_id ≡ id)) _ _
            (record { at = λ s h. ((clear values _ (store.renamed values names)).at s h.0, h.1) })
            (λ u. Yields-done _ (λ s h. h)) (λ e s h. (h.0, tt)))

  rest-Final :
      (values : Map String)
      → Yields (Clear values) (Final values) (
          ask env (env.store.get_server id) >>= λ found.
          refresh_keys env registry id (key_names values) found >>= λ server.
          reconnect env registry id server)
  unfolding ask
  rest-Final values =
      Yields-bind (Found values) _ _
        (record {
          at = λ s h. ((clear values _ ((store.kept values).get_server id)).at s h, asked s.1);
        })
        (λ found.
          Yields-bind (Found values) _ _ (refresh_keys-Found values (key_names values) found)
            (λ server. record { at = λ s h. (reconnect-Final values server h.1).at s h.0 })
            (λ e s h. tt))
        (λ e s h. tt)

  -- The credentials that the store told before, with the new ones over them, are kept, and the
  -- outcome tells where the session stands.
  abbrev pub Updated :
      Result (Map String) Error
      → Map String
      → Result UpdateEnvOutcome Error
      → Connections × W
      → Type 0
  Updated (ok stored) values (ok outcome) s =
      Holds (extend stored values) s.1 × TellsSession outcome (session s)
  Updated (err e) values (ok outcome) s = ⊥
  Updated before values (err e) s = Unit

  Final-Updated :
      (values stored : Map String) (r : Result UpdateEnvOutcome Error) (s : Connections × W)
      → Final (extend stored values) r s
      → Updated (ok stored) values r s
  Final-Updated values stored (ok outcome) s h = (h.0, h.1)
  Final-Updated values stored (err e) s h = tt

  abbrev Written : Map String → Result (Unit {0}) Error → Connections × W → Type 0
  Written values (ok u) s = Holds values s.1
  Written values (err e) s = Unit

  write-Written :
      (values : Map String) (w : W) (r : Result (Unit {0}) Error)
      → (registry.set_env_values id values w).0 ≡ r
      → (c : Connections) → Written values r (c, (registry.set_env_values id values w).1)
  write-Written values w (ok u) e c = store.written values w e
  write-Written values w (err f) e c = tt

  set-Written :
      (values : Map String)
      → Yields (λ s. Unit {0}) (Written values) (ask env (registry.set_env_values id values))
  unfolding ask
  set-Written values = record { at = λ s u. write-Written values s.1 _ refl _ }

  disconnect-Clear :
      (values : Map String)
      → Yields (λ s. Holds values s.1) (λ r. Clear values) (Sessions.disconnect env id)
  disconnect-Clear values = record {
    at = λ s h. (
      (disconnect-Around (Holds values) env (store.kept values) id).at s h,
      ((disconnect-Gone env id leaves (λ s. Unit)).at s tt).0,
    );
  }

  -- What follows the reading of the stored credentials.
  abbrev write_env : Map String → Session env UpdateEnvOutcome
  write_env values =
      ask env (registry.set_env_values id values)
      >> (ask env (registry.forget_cached_tools id)
          >> (Sessions.disconnect env id
              >> (ask env (env.store.get_server id) >>= λ found.
                  refresh_keys env registry id (key_names values) found >>= λ server.
                  reconnect env registry id server)))

  merged-Final : (values : Map String) → Yields (λ s. Unit {0}) (Final values) (write_env values)
  merged-Final values =
      Yields-bind (Written values) _ _ (set-Written values)
        (λ u.
          Yields-after _ _ (Around-ask (Holds values) env _ (store.forgotten values))
            (λ b.
              Yields-bind (λ r. Clear values) _ _ (disconnect-Clear values) (λ c. rest-Final values)
                (λ e s h. tt))
            (λ e s h. tt))
        (λ e s h. tt)

  -- The rest of the call, by what the store told.
  loaded-Updated :
      (values : Map String) (loaded : Result (Map String) Error) (s : Connections × W)
      → let r = resume (λ stored. write_env (extend stored values)) loaded s in
        Updated loaded values r.0 r.1
  loaded-Updated values (ok stored) s =
      Final-Updated values stored _ _ ((merged-Final (extend stored values)).at s tt)
  loaded-Updated values (err e) s = tt

  -- When the store keeps what is written to it, and other tasks leave the entries of the install
  -- alone: every outcome of replacing an install's credentials leaves the ones that the store told
  -- at the start merged with the new ones, also when it is disabled or does not connect again; it
  -- reports a connection just when there is a session, with its tools, and no session is left
  -- otherwise.
  pub update_env-Updated :
      (server_id : String) (values : Map String) (s : Connections × W)
      → require_non_empty server_id "server_id" ≡ ok id
      → Updated
          (env.store.load_env_values id s.1).0
          values
          (update_env env registry server_id values s).0
          (update_env env registry server_id values s).1
  unfolding update_env ◌>>=◌ of_result ask
  update_env-Updated server_id values s e =
      rw e (loaded-Updated values (env.store.load_env_values id s.1).0 _)
