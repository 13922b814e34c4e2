-- ===== src/Registry/Boot.antt =====
-- crates/tinymcp/src/registry/boot/types.rs: connecting what is installed when the program starts. The
-- attempts of its stream run one after the other here; the others that are under way at the same time
-- are among the tasks that change the sessions while a call waits.
use tinymcp.Common.{
  ℕ, ◌+◌, ◌≤◌, ◌≡◌, refl, Bool, true, false, List, [], ◌∷◌, length, Result, ok, err, if◌then◌else◌,
  arith,
}
use tinymcp.Error.{Error, server_disabled}
use tinymcp.Registry.{InstalledServer, McpTool}
use tinymcp.Registry.Connections.{Connections, Surroundings}
use tinymcp.Registry.Connections.Sessions.{ask, connect}

pub record BootOutcome : Type 0 where
  pub connected : ℕ
  pub failed : ℕ
  pub skipped : ℕ

unfoldable pub total : BootOutcome → ℕ
total o = o.connected + o.failed + o.skipped

abbrev pub is_server_disabled : Error → Bool
is_server_disabled (server_disabled server) = true
is_server_disabled _ = false

-- The counters that an attempt adds to.
abbrev pub counted : Result (List McpTool) Error → BootOutcome → BootOutcome
counted (ok tools) o = record o { connected = o.connected + 1 }
counted (err e) o =
    if is_server_disabled e
    then record o { skipped = o.skipped + 1 }
    else record o { failed = o.failed + 1 }

-- The two parts of `partition`.
unfoldable pub enabled_of : List InstalledServer → List InstalledServer
enabled_of [] = []
enabled_of (server ∷ l) = let rest = enabled_of l in if server.enabled then server ∷ rest else rest

unfoldable pub disabled_of : List InstalledServer → List InstalledServer
disabled_of [] = []
disabled_of (server ∷ l) =
    let rest = disabled_of l in if server.enabled then rest else server ∷ rest

module _ {W : Type 0} (env : Surroundings W) where
  unfoldable pub connect_each :
      List InstalledServer → BootOutcome → Connections × W → BootOutcome × (Connections × W)
  connect_each [] o s = (o, s)
  connect_each (server ∷ l) o s =
      connect_each l (counted (connect env server s).0 o) (connect env server s).1

  abbrev pub connect_listed :
      Result (List InstalledServer) Error → Connections × W → BootOutcome × (Connections × W)
  connect_listed (err e) s = (record { connected = 0; failed = 0; skipped = 0 }, s)
  connect_listed (ok servers) s =
      connect_each (enabled_of servers)
        (record { connected = 0; failed = 0; skipped = length (disabled_of servers) }) s

  unfoldable pub connect_installed_servers : Connections × W → BootOutcome × (Connections × W)
  unfolding connect_each enabled_of disabled_of
  connect_installed_servers s =
      connect_listed (ask env env.store.list_servers s).0 (ask env env.store.list_servers s).1

counted-total :
    (r : Result (List McpTool) Error) (o : BootOutcome)
    → (total (counted r o) ≡ total o + 1) × (o.skipped ≤ (counted r o).skipped)
unfolding total
counted-total (ok tools) o = (ground arith, ground arith)
counted-total (err e) o = ground arith

parted : (l : List InstalledServer) → length (enabled_of l) + length (disabled_of l) ≡ length l
unfolding enabled_of disabled_of
parted [] = refl
parted (server ∷ l) = ground (arith, parted l)

-- What the listing says of the outcome.
abbrev pub Counts : Result (List InstalledServer) Error → BootOutcome → Type 0
Counts (err e) o = total o ≡ 0
Counts (ok servers) o = (total o ≡ length servers) × (length (disabled_of servers) ≤ o.skipped)

module _ {W : Type 0} (env : Surroundings W) where
  connect_each-total :
      (l : List InstalledServer) (o : BootOutcome) (s : Connections × W)
      → (total (connect_each env l o s).0 ≡ total o + length l)
        × (o.skipped ≤ (connect_each env l o s).0.skipped)
  unfolding connect_each
  connect_each-total [] o s = (omega arith, omega arith)
  connect_each-total (server ∷ l) o s =
      let (e, f) = counted-total (connect env server s).0 o in
      let (g, h) =
        connect_each-total l (counted (connect env server s).0 o) (connect env server s).1 in
      (omega arith, omega arith)

  listed-Counts :
      (r : Result (List InstalledServer) Error) (s : Connections × W)
      → Counts r (connect_listed env r s).0
  unfolding total
  listed-Counts (err e) s = refl
  listed-Counts (ok servers) s =
      let start : BootOutcome = record {
        connected = 0;
        failed = 0;
        skipped = length (disabled_of servers);
      } in
      let (e, f) = connect_each-total (enabled_of servers) start s in
      let parts = parted servers in (omega arith, f)

  -- The startup pass counts every listed install once, as connected, failed or skipped, and those that
  -- are turned off are skipped; it counts none when the store cannot be listed.
  pub connect_installed_servers-Counts :
      (s : Connections × W)
      → Counts (env.store.list_servers s.1).0 (connect_installed_servers env s).0
  unfolding connect_installed_servers ask
  connect_installed_servers-Counts s = listed-Counts (env.store.list_servers s.1).0 _
