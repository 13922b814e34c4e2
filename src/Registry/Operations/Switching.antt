-- ===== src/Registry/Operations/Switching.antt =====
-- crates/tinymcp/src/registry/ops/types.rs: turning an install off, with attempts to connect under way
-- that have read its record before.
use tinymcp.Common.{
  ◌≡◌, refl, sym, subst, false, List, [], ◌∷◌, none, String, lookup, All, if_split, Result, ok, err,
}
use tinymcp.Common.Effects.{
  Effect, Keeps, Keeps-both, Yields, Yields-bind, Yields-after, Yields-attempt, Yields-tried,
  Yields-and, Yields-done, Yields-fail, fail, ◌>>=◌, ◌>>◌,
}
use tinymcp.Error.{Error}
use tinymcp.Registry.{InstalledServer, McpTool}
use tinymcp.Registry.Connections.{Connections, Surroundings}
use tinymcp.Registry.Connections.Sessions
use tinymcp.Registry.Connections.Sessions.{
  Session, ask, modify, forget_failure, insert_failure, confirm, confirm_current, record_outcome,
  connect_inner, connect,
}
use tinymcp.Registry.Connections.Entries.{Leaves, Keeps-ask, disconnect-Gone}
use tinymcp.Registry.Connections.Outcome.{IsEnabled, Dialled, connect_inner-Dialled, Yields-modify}
use tinymcp.Registry.Connections.Worlds.{
  KeptBy, Around-ask, disconnect-Around, connect_inner-Around,
}
use tinymcp.Registry.Operations.{Registry, require_non_empty}
use tinymcp.Registry.Operations.Changing.{switch_off, set_enabled}

-- What is known of the store: an install that it has turned off is off in the world, no call turns it
-- on again, and while it is off the store does not say that it is enabled.
pub record StaysOff {W : Type 0} (env : Surroundings W) (registry : Registry W) (id : String)
    (Off : W → Type 0) : Type 0 where
  pub written :
      (w : W)
      → (registry.update_enabled id false w).0 ≡ ok tt
      → Off (registry.update_enabled id false w).1
  pub kept : KeptBy Off env
  pub forgotten : Keeps Off (registry.forget_cached_tools id)
  pub told : (w : W) → Off w → IsEnabled (env.store.get_server id w).0 → ⊥

-- Attempts to connect, one after the other, by what their callers have read.
unfoldable pub attempts :
    {W : Type 0} (env : Surroundings W) → List InstalledServer → Connections × W → Connections × W
attempts env [] s = s
attempts env (server ∷ l) s = attempts env l (connect env server s).1

module _ {W : Type 0} (env : Surroundings W) (Off : W → Type 0) (kept : KeptBy Off env)
    (server : InstalledServer) (leaves : Leaves server.server_id env.others)
    (told : (w : W) → Off w → IsEnabled (env.store.get_server server.server_id w).0 → ⊥) where
  -- Off, and without a session.
  abbrev pub Absent : Connections × W → Type 0
  Absent s = Off s.1 × (lookup server.server_id s.0.live ≡ none)

  abbrev Refused : Result (List McpTool) Error → Connections × W → Type 0
  Refused (ok tools) s = ⊥
  Refused (err e) s = Absent s

  abbrev NotEnabled : Result InstalledServer Error → Connections × W → Type 0
  NotEnabled r s = Off s.1 × (IsEnabled r → ⊥)

  end_it :
      (e : Error)
      → Yields (λ s. Off s.1) Refused (Sessions.disconnect env server.server_id >> fail e)
  end_it e =
      Yields-bind (λ r s. Absent s) _ _
        (record {
          at = λ s h. (
            (disconnect-Around Off env kept server.server_id).at s h,
            ((disconnect-Gone env server.server_id leaves (λ s. Unit)).at s tt).0,
          );
        })
        (λ b. Yields-fail e (λ s h. h)) (λ f s h. h)

  confirm_current-Refused :
      (tools : List McpTool) (r : Result InstalledServer Error)
      → Yields (NotEnabled r) Refused (confirm_current env tools server r)
  confirm_current-Refused tools (ok current) =
      if_split (Yields (NotEnabled (ok current)) Refused) current.enabled
        (λ h. record { at = λ s off. absurd (off.1 h) })
        (λ h. record { at = λ s off. (end_it _).at s off.0 })
  confirm_current-Refused tools (err e) = record { at = λ s off. (end_it e).at s off.0 }

  ask-NotEnabled :
      (tools : List McpTool)
      → Yields
          (λ s. Off s.1 × Dialled env server leaves none (ok tools) s)
          NotEnabled
          (ask env (env.store.get_server server.server_id))
  unfolding ask
  ask-NotEnabled tools = record {
    at = λ s h. ((kept.get_server server.server_id).at s.1 h.0, told s.1 h.0);
  }

  Absent-ask : {A : Type 0} (f : Effect W Error A) → Keeps Off f → Keeps Absent (ask env f)
  Absent-ask f k =
      Keeps-both _ (Around-ask Off env f k)
        (Keeps-ask env server.server_id leaves (λ session failure. session ≡ none) f)

  confirm-Refused :
      (r : Result (List McpTool) Error)
      → Yields (λ s. Off s.1 × Dialled env server leaves none r s) Refused (confirm env server r)
  confirm-Refused (ok tools) =
      Yields-attempt NotEnabled _ _ (ask-NotEnabled tools) (confirm_current-Refused tools)
  confirm-Refused (err e) = Yields-fail e (λ s h. h)

  record_outcome-Refused :
      (r : Result (List McpTool) Error) → Yields (Refused r) Refused (record_outcome env server r)
  record_outcome-Refused (ok tools) = record { at = λ s h. absurd h }
  record_outcome-Refused (err e) =
      Yields-tried _ _ (Absent-ask _ (kept.load_env_values server.server_id)) (λ values.
        Yields-modify env server leaves {R = Absent} _ _ (λ s h. h) (λ u. Yields-fail e (λ s h. h)))

  Refused-Absent : (r : Result (List McpTool) Error) (s : Connections × W) → Refused r s → Absent s
  Refused-Absent (ok tools) s h = absurd h
  Refused-Absent (err e) s h = h

  connect-Refused : Yields Absent Refused (connect env server)
  unfolding connect
  connect-Refused =
      Yields-attempt (λ r s. Off s.1 × Dialled env server leaves none r s) _ _
        (Yields-and _ (connect_inner-Around Off env kept server)
          (connect_inner-Dialled env server leaves none))
        (λ r. Yields-attempt Refused _ _ (confirm-Refused r) record_outcome-Refused)

  connect-Absent : (s : Connections × W) → Absent s → Absent (connect env server s).1
  connect-Absent s h =
      Refused-Absent (connect env server s).0 (connect env server s).1 (connect-Refused.at s h)

module _ {W : Type 0} (env : Surroundings W) (registry : Registry W) (id : String)
    (leaves : Leaves id env.others) (Off : W → Type 0) (store : StaysOff env registry id Off) where
  abbrev Away : Connections × W → Type 0
  Away s = Off s.1 × (lookup id s.0.live ≡ none)

  connect-Away :
      (server : InstalledServer) (s : Connections × W)
      → server.server_id ≡ id
      → Away s
      → Away (connect env server s).1
  connect-Away server s e h =
      let own = subst (λ i. Leaves i env.others) (sym e) leaves in
      let told =
        subst (λ i. (w : W) → Off w → IsEnabled (env.store.get_server i w).0 → ⊥) (sym e)
          store.told in
      let after =
        connect-Absent env Off store.kept server own told s
          (h.0, subst (λ i. lookup i s.0.live ≡ none) (sym e) h.1) in
      (after.0, subst (λ i. lookup i (connect env server s).1.0.live ≡ none) e after.1)

  attempts-Away :
      (l : List InstalledServer) (s : Connections × W)
      → All (λ (server : InstalledServer). server.server_id ≡ id) l
      → Away s
      → Away (attempts env l s)
  unfolding attempts
  attempts-Away [] s h k = k
  attempts-Away (server ∷ l) s h k =
      attempts-Away l (connect env server s).1 h.1 (connect-Away server s h.0 k)

  abbrev Switched : Result (Unit {0}) Error → Connections × W → Type 0
  Switched (ok u) s = Away s
  Switched (err e) s = Unit

  abbrev Written : Result (Unit {0}) Error → Connections × W → Type 0
  Written (ok u) s = Off s.1
  Written (err e) s = Unit

  off-Written :
      (w : W) (r : Result (Unit {0}) Error)
      → (registry.update_enabled id false w).0 ≡ r
      → (c : Connections) → Written r (c, (registry.update_enabled id false w).1)
  off-Written w (ok u) e c = store.written w e
  off-Written w (err f) e c = tt

  update-Written : Yields (λ s. Unit {0}) Written (ask env (registry.update_enabled id false))
  unfolding ask
  update-Written = record { at = λ s u. off-Written s.1 _ refl _ }

  get-any : Keeps (λ s. Unit {0}) (ask env (env.store.get_server id))
  get-any = record { at = λ s u. tt }

  forget-Away : Keeps Away (modify env (forget_failure id))
  unfolding modify
  forget-Away = record { at = λ s h. h }

  Away-ask : {A : Type 0} (f : Effect W Error A) → Keeps Off f → Keeps Away (ask env f)
  Away-ask f k =
      Keeps-both _ (Around-ask Off env f k)
        (Keeps-ask env id leaves (λ session failure. session ≡ none) f)

  disconnect-Away : Yields (λ s. Off s.1) (λ r. Away) (Sessions.disconnect env id)
  disconnect-Away = record {
    at = λ s h. (
      (disconnect-Around Off env store.kept id).at s h,
      ((disconnect-Gone env id leaves (λ s. Unit)).at s tt).0,
    );
  }

  switch_off-Switched : Yields (λ s. Off s.1) Switched (switch_off env registry false id)
  switch_off-Switched =
      Yields-bind (λ r. Away) _ _ disconnect-Away
        (λ b.
          Yields-after _ _ forget-Away
            (λ u.
              Yields-after _ _ (Away-ask _ store.forgotten) (λ b. Yields-done tt (λ s h. h))
                (λ e s h. tt))
            (λ e s h. tt))
        (λ e s h. tt)

  rest-Switched :
      Yields
        (λ s. Unit {0})
        Switched
        (ask env (env.store.get_server id)
          >> (ask env (registry.update_enabled id false) >> switch_off env registry false id))
  rest-Switched =
      Yields-after _ _ get-any
        (λ found. Yields-bind Written _ _ update-Written (λ u. switch_off-Switched) (λ e s h. tt))
        (λ e s h. tt)

  Switched-Away :
      (r : Result (Unit {0}) Error) (s : Connections × W) → Switched r s → r ≡ ok tt → Away s
  Switched-Away (ok u) s h e = h
  Switched-Away (err f) s h e = cc

  abbrev rest : Session env (Unit {0})
  rest =
      ask env (env.store.get_server id)
      >> (ask env (registry.update_enabled id false) >> switch_off env registry false id)

  set_enabled-rest :
      (server_id : String) (s : Connections × W)
      → require_non_empty server_id "server_id" ≡ ok id
      → set_enabled env registry server_id false s ≡ rest s
  unfolding set_enabled ◌>>=◌
  set_enabled-rest server_id s e = rw e refl

  -- Once an install is turned off, it has no session, and no attempt to connect that follows brings
  -- one up, whatever record of the install it has read before: with a store in which the install
  -- stays off and other tasks that leave its session alone.
  pub set_enabled-attempts :
      (server_id : String) (l : List InstalledServer) (s : Connections × W)
      → require_non_empty server_id "server_id" ≡ ok id
      → All (λ (server : InstalledServer). server.server_id ≡ id) l
      → (set_enabled env registry server_id false s).0 ≡ ok tt
      → lookup id (attempts env l (set_enabled env registry server_id false s).1).0.live ≡ none
  set_enabled-attempts server_id l s e own succeeded =
      let same = set_enabled-rest server_id s e in
      let away =
        Switched-Away (rest s).0 (rest s).1 (rest-Switched.at s tt) (
          subst (λ (x : Result (Unit {0}) Error × (Connections × W)). x.0 ≡ ok tt) same
            succeeded) in
      subst
        (λ (x : Result (Unit {0}) Error × (Connections × W)).
          lookup id (attempts env l x.1).0.live ≡ none)
        (sym same) (attempts-Away l (rest s).1 own away).1
