-- ===== src/Registry/Connections/Outcome.antt =====
-- crates/tinymcp/src/registry/connections/types.rs: what an attempt to connect leaves behind.
use tinymcp.Common.{
  ◌≡◌, refl, sym, subst, ◌⊎◌, inl, inr, Bool, true, false, List, map, Option, none, some, String,
  lookup, lookup-insert_self, lookup-remove, eq_refl, arith, is_some, Result, ok, err, if_split, ap,
}
use tinymcp.Common.Effects.{
  Effect, Keeps, keeps_rules, Yields, Yields-bind, Yields-tried, Yields-attempt, Yields-after,
  Yields-done, Yields-fail, ◌>>=◌, ◌>>◌, fail,
}
use tinymcp.Oauth.Guard.{SocketAddr}
use tinymcp.Error.{Error, is_unauthorized}
use tinymcp.Registry.{InstalledServer, McpTool, Transport, stdio, http_remote}
use tinymcp.Registry.Connections.{Connection, ConnectFailure, Connections, Surroundings}
use tinymcp.Registry.Connections.Entries.{Leaves, Of, Keeps-ask, Keeps-tell, Gone, disconnect-Gone}
use tinymcp.Registry.Connections.Status.{failure_of}
use tinymcp.Registry.Connections.Sessions.{
  Session, ask, tell, modify, dial, dial_stdio, dial_remote, public_addresses, dial_url, to_tool,
  connect_inner, disconnect, connect, confirm, confirm_current, record_outcome, insert_live,
  insert_failure,
}

abbrev pub HasTools : List McpTool → Option Connection → Type 0
HasTools tools none = ⊥
HasTools tools (some connection) = connection.tools ≡ tools

-- The failure that is kept tells the error, and a reason to sign in just when it was a 401.
abbrev pub Tells : (Error → String) → Error → Option ConnectFailure → Type 0
Tells render error none = ⊥
Tells render error (some failure) =
    (failure.message ≡ render error) × (is_some failure.auth ≡ is_unauthorized error)

abbrev pub IsEnabled : Result InstalledServer Error → Type 0
IsEnabled (ok current) = current.enabled ≡ true
IsEnabled (err e) = ⊥

module _ {W : Type 0} (env : Surroundings W) (server : InstalledServer)
    (leaves : Leaves server.server_id env.others) where
  abbrev pub State : Type 0
  State = Connections × W

  abbrev pub At : (Option Connection → Option ConnectFailure → Type 0) → State → Type 0
  At P = Of env server.server_id leaves P

  module _ (P : Option Connection → Option ConnectFailure → Type 0) where
    ask_kept : {A : Type 0} (f : Effect W Error A) → Keeps (At P) (ask env f)
    ask_kept = Keeps-ask env server.server_id leaves P

    tell_kept : {A : Type 0} (f : W → A × W) → Keeps (At P) (tell env f)
    tell_kept = Keeps-tell env server.server_id leaves P

    dial_stdio-Keeps : Keeps (At P) (dial_stdio env server)
    unfolding dial_stdio
    dial_stdio-Keeps = search (keeps_rules, ask_kept, tell_kept) depth 16

    public_addresses-Keeps :
        (https : Bool) (url : String) → Keeps (At P) (public_addresses env https url)
    public_addresses-Keeps true url = search (keeps_rules, ask_kept) depth 16
    public_addresses-Keeps false url = search (keeps_rules) depth 16

    dial_url-Keeps :
        (addresses : Option (List SocketAddr)) (url : String)
        → Keeps (At P) (dial_url env addresses url)
    dial_url-Keeps none url = search (keeps_rules, tell_kept) depth 16
    dial_url-Keeps (some a) url = search (keeps_rules) depth 16

    dial_remote-Keeps : (url : String) → Keeps (At P) (dial_remote env server url)
    unfolding dial_remote
    dial_remote-Keeps url =
        search (keeps_rules, ask_kept, public_addresses-Keeps, dial_url-Keeps) depth 16

    dial-Keeps : (t : Transport) → Keeps (At P) (dial env server t)
    dial-Keeps stdio = dial_stdio-Keeps
    dial-Keeps (http_remote url) = dial_remote-Keeps url

  inserted :
      (connection : Connection) (s : State)
      → HasTools connection.tools
          (lookup server.server_id (insert_live server.server_id connection s.0).live)
  inserted connection s = rw (lookup-insert_self server.server_id connection s.0.live) refl

  module _ {A : Type 0} {P R : State → Type 0} {Q : Result A Error → State → Type 0} where
    -- A change of the sessions does not fail.
    pub Yields-modify :
        (f : Connections → Connections) (k : Unit {0} → Session env A)
        → ((s : State) → P s → R (f s.0, s.1))
        → ((u : Unit {0}) → Yields R Q (k u))
        → Yields P Q (modify env f >>= k)
    unfolding ◌>>=◌ modify
    Yields-modify f k changed next = record { at = λ s p. (next tt).at _ (changed s p) }

  abbrev pub WithTools : List McpTool → State → Type 0
  WithTools tools s = HasTools tools (lookup server.server_id s.0.live)

  Keeps-tools :
      {A : Type 0} (tools : List McpTool) (f : Effect W Error A)
      → Keeps (WithTools tools) (ask env f)
  Keeps-tools tools f = ask_kept (λ session failure. HasTools tools session) f

  module _ (before : Option Connection) where
    abbrev pub Same : Option Connection → Option ConnectFailure → Type 0
    Same session failure = session ≡ before

    -- A dial that fails has no session of its own; one that succeeds has the tools.
    abbrev pub Dialled : Result (List McpTool) Error → State → Type 0
    Dialled (ok tools) s = WithTools tools s
    Dialled (err e) s = lookup server.server_id s.0.live ≡ before

    pub connect_inner-Dialled : Yields (At Same) Dialled (connect_inner env server)
    unfolding connect_inner
    connect_inner-Dialled =
        Yields-after (dial env server server.transport) _ (dial-Keeps Same server.transport)
          (λ client.
            Yields-after _ _ (ask_kept Same _)
              (λ remote.
                let tools : List McpTool = map to_tool remote in
                Yields-tried _ _ (ask_kept Same _) (λ initialized.
                  Yields-modify {R = WithTools tools} _ _ (λ s p. inserted _ s)
                    (λ u. Yields-tried _ _ (Keeps-tools tools _) (λ touched.
                      Yields-tried _ _ (Keeps-tools tools _)
                        (λ put. Yields-done tools (λ s h. h))))))
              (λ e s p. p))
          (λ e s p. p)

    module _ (w : W) where
      -- The session came up and the store tells, in the world `w`, an install that is enabled; or there
      -- is none, or it is the one from before.
      abbrev Confirmed : Result (List McpTool) Error → State → Type 0
      Confirmed (ok tools) s =
          WithTools tools s × IsEnabled (env.store.get_server server.server_id w).0
      Confirmed (err e) s =
          (lookup server.server_id s.0.live ≡ none) ⊎ (lookup server.server_id s.0.live ≡ before)

      -- The dial has ended in the world `w`.
      abbrev Ended : Result (List McpTool) Error → State → Type 0
      Ended r s = Dialled r s × (s.1 ≡ w)

      abbrev Asked : List McpTool → Result InstalledServer Error → State → Type 0
      Asked tools r s = WithTools tools s × ((env.store.get_server server.server_id w).0 ≡ r)

      ask-Asked :
          (tools : List McpTool)
          → Yields
              (Ended (ok tools))
              (Asked tools)
              (ask env (env.store.get_server server.server_id))
      unfolding ask
      ask-Asked tools = record {
        at = λ s p. (
          (Keeps-tools tools (env.store.get_server server.server_id)).at s p.0,
          ap (λ x. (env.store.get_server server.server_id x).0) (sym p.1),
        );
      }

      refuse-Confirmed :
          (P : State → Type 0) (e : Error)
          → Yields P Confirmed (disconnect env server.server_id >> fail e)
      refuse-Confirmed P e =
          Yields-bind (λ r. At Gone) _ _ (disconnect-Gone env server.server_id leaves P)
            (λ b. Yields-fail e (λ s g. inl g.0)) (λ f s g. inl g.0)

      confirm_current-Confirmed :
          (tools : List McpTool) (r : Result InstalledServer Error)
          → Yields (Asked tools r) Confirmed (confirm_current env tools server r)
      confirm_current-Confirmed tools (ok current) =
          if_split (Yields (Asked tools (ok current)) Confirmed) current.enabled
            (λ h. Yields-done tools (λ s a. (a.0, subst IsEnabled (sym a.1) h)))
            (λ h. refuse-Confirmed (Asked tools (ok current)) _)
      confirm_current-Confirmed tools (err e) = refuse-Confirmed (Asked tools (err e)) e

      confirm-Confirmed :
          (r : Result (List McpTool) Error) → Yields (Ended r) Confirmed (confirm env server r)
      confirm-Confirmed (ok tools) =
          Yields-attempt (Asked tools) _ _ (ask-Asked tools) (confirm_current-Confirmed tools)
      confirm-Confirmed (err e) = Yields-fail e (λ s p. inr p.0)

      -- The whole outcome: with the failure that is kept.
      abbrev pub Recorded : Result (List McpTool) Error → State → Type 0
      Recorded (ok tools) s =
          WithTools tools s
          × IsEnabled (env.store.get_server server.server_id w).0
          × (lookup server.server_id s.0.failures ≡ none)
      Recorded (err e) s =
          ((lookup server.server_id s.0.live ≡ none) ⊎ (lookup server.server_id s.0.live ≡ before))
          × Tells env.transports.render e (lookup server.server_id s.0.failures)

      abbrev Unchanged : Option Connection → Option ConnectFailure → Type 0
      Unchanged session failure = (session ≡ none) ⊎ (session ≡ before)

      told :
          (e : Error) (cred : Bool) (c : Connections)
          → Tells env.transports.render e (
              lookup server.server_id
                (insert_failure server.server_id
                  (failure_of e (env.transports.render e) cred)
                  c).failures)
      unfolding failure_of
      told e cred c = rw (lookup-insert_self) (refl, ground arith)

      record_outcome-Recorded :
          (r : Result (List McpTool) Error)
          → Yields (Confirmed r) Recorded (record_outcome env server r)
      record_outcome-Recorded (ok tools) =
          Yields-modify {R = Recorded (ok tools)} _ _
            (λ s c. (c.0, c.1, rw (lookup-remove, eq_refl server.server_id)))
            (λ u. Yields-done tools (λ s h. h))
      record_outcome-Recorded (err e) = Yields-tried _ _ (ask_kept Unchanged _) (λ values.
          Yields-modify {R = Recorded (err e)} _ _ (λ s p. (p, told e _ s.0))
            (λ u. Yields-fail e (λ s h. h)))

    abbrev Starts : State → State → Type 0
    Starts s t = (lookup server.server_id t.0.live ≡ before) × (t ≡ s)

    connect_inner-Ended :
        (s : State)
        → Yields (Starts s) (Ended (connect_inner env server s).1.1) (connect_inner env server)
    connect_inner-Ended s = record {
      at = λ t p. (connect_inner-Dialled.at t p.0, ap (λ x. (connect_inner env server x).1.1) p.1);
    }

    connect-Yields :
        (s : State)
        → Yields (Starts s) (Recorded (connect_inner env server s).1.1) (connect env server)
    unfolding connect
    connect-Yields s =
        let w = (connect_inner env server s).1.1 in
        Yields-attempt (Ended w) _ _ (connect_inner-Ended s) (λ r.
          Yields-attempt (Confirmed w) _ _ (confirm-Confirmed w r) (record_outcome-Recorded w))

  -- After an attempt to connect, with other tasks that leave the entries of the install alone: a
  -- success has put in place a session with the tools it returns, the store tells the install as
  -- enabled in the world in which the dial has ended, and no failure is kept; a failure leaves no
  -- session or the one from before, and its text and whether it was a 401 are kept.
  pub connect-Recorded :
      (s : State)
      → Recorded
          (lookup server.server_id s.0.live)
          (connect_inner env server s).1.1
          (connect env server s).0
          (connect env server s).1
  connect-Recorded s = (connect-Yields (lookup server.server_id s.0.live) s).at s (refl, refl)
