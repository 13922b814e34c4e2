-- ===== src/Supervisor.antt =====
-- crates/tinymcp/src/registry/supervisor: the supervisor that keeps installed servers connected,
-- with the observation vocabulary of crates/tinymcp-bus/src/supervisor/mod.rs. This file holds the
-- data; the children hold the backoff, one cycle, and the loop over several registries.
pub mod Backoff
pub mod Curve
pub mod Cycle
pub mod Frame
pub mod Hosts
pub mod Invariant
pub mod Parking
pub mod Waiting
pub mod Visits
pub mod Events
pub mod Reports
use tinymcp.Common.{
  ℕ, ◌*◌, Bool, true, false, List, [], ◌++◌, ◌∷◌, Option, none, some, String, Map, Result,
}
use tinymcp.Json.{Value}
use tinymcp.Error.{Error}
use tinymcp.Registry.{InstalledServer, McpTool}

-- A `Duration`, and an `Instant` since some start, in nanoseconds.
abbrev pub Duration : Type 0
Duration = ℕ

abbrev pub Instant : Type 0
Instant = ℕ

abbrev pub from_secs : ℕ → Duration
from_secs n = n * 1_000_000_000

pub data ProbeOutcome : Type 0 where
  alive : Duration → ProbeOutcome
  missing : ProbeOutcome
  broken : String → Duration → ProbeOutcome
  timed_out : Duration → ProbeOutcome
  unknown : ProbeOutcome

unfoldable pub is_alive : ProbeOutcome → Bool
is_alive (alive _) = true
is_alive _ = false

pub record ServerRef : Type 0 where
  pub server_id : String
  pub qualified_name : String
  pub display_name : String

-- `From<&InstalledServer> for ServerRef`.
abbrev pub server_ref : InstalledServer → ServerRef
server_ref server = record {
  server_id = server.server_id;
  qualified_name = server.qualified_name;
  display_name = server.display_name;
}

pub data SupervisorEvent : Type 0 where
  probe_answered : ServerRef → Duration → SupervisorEvent
  probe_timed_out : ServerRef → Duration → ℕ → ℕ → SupervisorEvent
  transport_dropped : ServerRef → ProbeOutcome → ℕ → SupervisorEvent
  reconnected : ServerRef → ℕ → ℕ → SupervisorEvent
  reconnect_failed : ServerRef → String → ℕ → Duration → SupervisorEvent
  parked : ServerRef → String → SupervisorEvent
  unknown : SupervisorEvent

unfoldable pub event_server : SupervisorEvent → Option ServerRef
event_server (probe_answered r _) = some r
event_server (probe_timed_out r _ _ _) = some r
event_server (transport_dropped r _ _) = some r
event_server (reconnected r _ _) = some r
event_server (reconnect_failed r _ _ _) = some r
event_server (parked r _) = some r
event_server SupervisorEvent.unknown = none

pub record SupervisorConfig : Type 0 where
  pub tick_interval : Duration
  pub probe_timeout : Duration

-- `SupervisorConfig::default`.
abbrev pub default_config : SupervisorConfig
default_config = record { tick_interval = from_secs 60; probe_timeout = from_secs 8 }

pub record McpClientIdentityConfig : Type 0 where
  pub name : String
  pub title : String
  pub version : String
  pub capabilities : Value

pub record McpProxyConfig : Type 0 where
  pub http_proxy : Option String
  pub https_proxy : Option String
  pub all_proxy : Option String
  pub no_proxy : List String

-- The store and the connections as a cycle calls them, over a world that each call may change:
-- other tasks run while a call waits. `render` is the text of an error.
pub record Outside (W : Type 0) : Type 0 where
  pub list_servers : W → Result (List InstalledServer) Error × W
  pub is_connected : String → W → Bool × W
  pub probe_alive : String → Duration → W → ProbeOutcome × W
  pub disconnect : String → W → W
  pub connect :
      McpClientIdentityConfig
      → Option McpProxyConfig
      → InstalledServer
      → W
      → Result (List McpTool) Error × W
  pub render : Error → String
