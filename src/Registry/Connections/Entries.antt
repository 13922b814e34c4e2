-- ===== src/Registry/Connections/Entries.antt =====
-- crates/tinymcp/src/registry/connections/types.rs: the entries of one install among the sessions and
-- the failures, with other tasks at work.
use tinymcp.Common.{◌≡◌, sym, subst, Option, none, some, String, lookup, lookup-remove, eq_refl}
use tinymcp.Common.Effects.{Effect, Keeps, keeps_rules, Yields, ◌>>=◌}
use tinymcp.Error.{Error}
use tinymcp.Registry.Connections.{Connection, ConnectFailure, Connections, Surroundings}
use tinymcp.Registry.Connections.Sessions.{
  ask, tell, modify, close_removed, forget_failure, remove_live, disconnect,
}

-- The other tasks leave the entries of an install alone.
pub record Leaves (id : String) {W : Type 0} (others : W → Connections → Connections) : Type 0 where
  pub live : (w : W) (c : Connections) → lookup id (others w c).live ≡ lookup id c.live
  pub failures : (w : W) (c : Connections) → lookup id (others w c).failures ≡ lookup id c.failures

-- Both entries are gone once the session is ended.
abbrev pub Gone : Option Connection → Option ConnectFailure → Type 0
Gone session failure = (session ≡ none) × (failure ≡ none)

module _ {W : Type 0} (env : Surroundings W) (id : String) (leaves : Leaves id env.others) where
  abbrev State : Type 0
  State = Connections × W

  -- A predicate on the entries of the install.
  abbrev pub Of : (Option Connection → Option ConnectFailure → Type 0) → Connections × W → Type 0
  Of P s = P (lookup id s.0.live) (lookup id s.0.failures)

  module _ (P : Option Connection → Option ConnectFailure → Type 0) where
    left_alone : (w : W) (c : Connections) (v : W) → Of P (c, v) → Of P (env.others w c, w)
    left_alone w c v p =
        subst (λ o. P o (lookup id (env.others w c).failures)) (sym (leaves.live w c))
          (subst (P (lookup id c.live)) (sym (leaves.failures w c)) p)

    pub Keeps-ask : {A : Type 0} (f : Effect W Error A) → Keeps (Of P) (ask env f)
    unfolding ask
    Keeps-ask f = record { at = λ s p. left_alone (f s.1).1 s.0 s.1 p }

    pub Keeps-tell : {A : Type 0} (f : W → A × W) → Keeps (Of P) (tell env f)
    unfolding tell
    Keeps-tell f = record { at = λ s p. left_alone (f s.1).1 s.0 s.1 p }

  pub close_removed-Keeps :
      (P : Option Connection → Option ConnectFailure → Type 0) (c : Option Connection)
      → Keeps (Of P) (close_removed env c)
  close_removed-Keeps P none = search (keeps_rules) depth 16
  close_removed-Keeps P (some c) = search (keeps_rules, Keeps-ask P) depth 16

  removed : (c : Connections) (w : W) → Of Gone (forget_failure id (remove_live id c), w)
  removed c w = (rw (lookup-remove, eq_refl id), rw (lookup-remove, eq_refl id))

  pub disconnect-Gone : (P : State → Type 0) → Yields P (λ r s. Of Gone s) (disconnect env id)
  unfolding disconnect modify ◌>>=◌
  disconnect-Gone P = record {
    at = λ s p. (close_removed-Keeps Gone (lookup id s.0.live)).at _ (removed s.0 s.1);
  }
