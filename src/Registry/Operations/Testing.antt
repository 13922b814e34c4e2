-- ===== src/Registry/Operations/Testing.antt =====
-- crates/tinymcp/src/registry/ops/types.rs: what a test of a connection leaves as it was.
use tinymcp.Common.{leb, ◌≡◌, true, Option, none, some, String, Map, lookup}
use tinymcp.Common.Effects.{Effect, Keeps, keeps_rules}
use tinymcp.Error.{Error}
use tinymcp.Registry.{Transport, stdio, http_remote}
use tinymcp.Registry.Install.{Launch}
use tinymcp.Registry.Connections.{ActiveClient, Connections, Surroundings}
use tinymcp.Registry.Connections.Sessions.{Session, ask, tell}
use tinymcp.Registry.Setup.{SecretRef, SecretVault, resolve}
use tinymcp.Registry.Setup.Holding.{Holds, resolve_locked-Holds}
use tinymcp.Registry.Operations.{Registry, or_fail}
use tinymcp.Registry.Operations.Setup.{
  Desk, in_session, under_lock, open_tested, list_tested, test_launch, setup_test_connection,
}
use tinymcp.Supervisor.{Instant}

-- The other tasks keep what is said of the sessions, and the handle with its value; and the clock does
-- not go back behind `start`.
pub record LeavesBoth {W : Type 0} (P : Connections → Type 0) (h : SecretRef) (x : String)
    (start : Instant) (env : Surroundings W) (desk : Desk W) : Type 0 where
  pub sessions : (w : W) (c : Connections) → P c → P (env.others w c)
  pub secrets :
      (w : W) (v : SecretVault)
      → Holds x start (lookup h v)
      → Holds x start (lookup h (desk.other_vault w v))
  pub onwards : (w : W) → leb start (desk.clock w).0 ≡ true

module _ {W : Type 0} (P : Connections → Type 0) (h : SecretRef) (x : String) (start : Instant)
    (env : Surroundings W) (registry : Registry W) (desk : Desk W)
    (leaves : LeavesBoth P h x start env desk) where
  abbrev Sessions : Connections × W → Type 0
  Sessions s = P s.0

  abbrev pub Both : SecretVault × (Connections × W) → Type 0
  Both s = Holds x start (lookup h s.0) × P s.1.0

  ask-Keeps : {A : Type 0} (f : Effect W Error A) → Keeps Sessions (ask env f)
  unfolding ask
  ask-Keeps f = record { at = λ s p. leaves.sessions (f s.1).1 s.0 p }

  tell-Keeps : {A : Type 0} (f : W → A × W) → Keeps Sessions (tell env f)
  unfolding tell
  tell-Keeps f = record { at = λ s p. leaves.sessions (f s.1).1 s.0 p }

  in_session-Keeps :
      {A : Type 0} (m : Session env A)
      → Keeps Sessions m
      → Keeps Both (in_session env registry desk m)
  unfolding in_session
  in_session-Keeps m k = record { at = λ s p. (leaves.secrets (m s.1).1.1 s.0 p.0, k.at s.1 p.1) }

  resolve-Keeps :
      (secrets : Map SecretRef) → Keeps Both (under_lock env registry desk (resolve secrets))
  unfolding under_lock resolve
  resolve-Keeps secrets = record {
    at = λ s p. (
      resolve_locked-Holds h x start secrets (desk.clock s.1.1).0 s.0 (leaves.onwards s.1.1) p.0,
      p.1,
    );
  }

  or_fail-Keeps : {A : Type 0} (e : Error) (o : Option A) → Keeps Sessions (or_fail e o)
  or_fail-Keeps e none = search (keeps_rules) depth 16
  or_fail-Keeps e (some a) = search (keeps_rules) depth 16

  open_tested-Keeps :
      (launch : Launch) (values : Map String) (t : Transport)
      → Keeps Sessions (open_tested env registry desk launch values t)
  open_tested-Keeps launch values (http_remote url) = search (keeps_rules, ask-Keeps) depth 16
  open_tested-Keeps launch values stdio = tell-Keeps _

  list_tested-Keeps :
      (client : ActiveClient) → Keeps Sessions (list_tested env registry desk client)
  list_tested-Keeps client = search (keeps_rules, ask-Keeps) depth 16

  test_launch-Keeps :
      (source name : String) (values : Map String)
      → Keeps Sessions (test_launch env registry desk source name values)
  unfolding test_launch
  test_launch-Keeps source name values =
      search (keeps_rules, ask-Keeps, or_fail-Keeps, open_tested-Keeps, list_tested-Keeps) depth 16

  -- However a test of a connection ends, nothing joins the sessions and no secret is used up: what
  -- holds of the sessions and is kept by the other tasks holds afterwards, and a handle that holds a
  -- value, and that the other tasks leave alone, holds it afterwards.
  pub setup_test_connection-Keeps :
      (qualified_name : String) (secrets : Map SecretRef) (s : SecretVault × (Connections × W))
      → Both s
      → Both (setup_test_connection env registry desk qualified_name secrets s).1
  unfolding setup_test_connection
  setup_test_connection-Keeps qualified_name secrets s p =
      let kept : Keeps Both (setup_test_connection env registry desk qualified_name secrets) =
        search (keeps_rules, resolve-Keeps, in_session-Keeps, test_launch-Keeps) depth 16 in
      kept.at s p
