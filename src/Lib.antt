-- ===== src/Lib.antt =====
-- tinymcp: a module that keeps a host connected to MCP servers, and that serves MCP itself. The wire
-- contract is crates/tinymcp-bus, the implementation crates/tinymcp.
--
-- The program's parts. A host asks the module, over a bus, to open a registry of installed servers.
-- A supervisor visits every install of the registry in cycles: it probes the live sessions, ends the
-- dead ones, and dials those that are not connected, with a growing wait between attempts. The
-- host's own handle on a directory is opened and closed through a machine of small steps, since
-- either may take several calls; a table of clients keeps one client to a directory and reserves a
-- directory while it is cleaned up. On the other side the module is an MCP server: lines of JSON-RPC
-- come in, a session remembers which client sends them, and a handler of the host runs the tools.
--
-- Which file models which part:
--   Supervisor.antt and its children: crates/tinymcp/src/registry/supervisor (types.rs, backoff.rs)
--     and crates/tinymcp-bus/src/supervisor/mod.rs. `Supervisor` is the struct; `visit` is the body
--     of the loop of `tick`; `judge_probe`, `attempt_connect`, `tick`, `run` and `run_many` are the
--     methods of those names. The store and the connections are `Outside W`, an interface on a world
--     `W` that every call may change and whose answers are arbitrary.
--   Lifecycle/Machine.antt: crates/tinymcp-bus/src/client_lifecycle/machine.rs, the struct
--     `ConfiguredLifecycle` and its methods, each with a helper `.._in` on the state.
--   Lifecycle/Table.antt and Lifecycle/Table/Cleanup.antt: client_lifecycle/table.rs, the struct
--     `ClientTable` and its methods. Shared pointers are numbers into a heap, and what other threads
--     do between two locked sections of a call is an argument of the call.
--   Server/Declarations.antt: crates/tinymcp-bus/src/server/declarations.rs.
--   Server/Session.antt: crates/tinymcp/src/server/session/mod.rs, `ClientSession`.
--   Server/Protocol.antt, Server/Protocol/Requests.antt, Messages.antt and Bounded.antt: the
--     functions of crates/tinymcp/src/server/protocol/mod.rs, under their names. `Handler S` is the
--     trait McpServerHandler on a state `S`; the functions pass the session and that state on.
--   Server/Args.antt: crates/tinymcp/src/server/args/mod.rs, under its function names.
--   Transport/Sse.antt: crates/tinymcp/src/transport/http/sse.rs; a body is the list of its
--     characters.
--   Oauth/Pending.antt: crates/tinymcp/src/registry/oauth/pending.rs, `MemoryPendingStore`; the time
--     at which a call reads the clock is an argument.
--   Oauth/Guard.antt: crates/tinymcp/src/registry/oauth/endpoint_guard.rs, `guard_endpoint` and
--     `is_blocked_ip`; `Resolver W` parses URLs and addresses and resolves names.
--   Registry/Connections.antt and its children Status, Dial, Sessions and Views:
--     crates/tinymcp/src/registry/connections (types.rs, status.rs, dial.rs), the struct
--     `Connections` and its methods under their names. `Surroundings W` holds the store, the
--     clients, and what other tasks do to the table while a call waits; `Session A` is a call that
--     reads and changes the table.
--   Registry/Install.antt: crates/tinymcp/src/registry/ops/install.rs, under its function names.
--   Registry/Operations.antt and its children Changing, Calls and Overview:
--     crates/tinymcp/src/registry/ops/types.rs, the methods of `McpRegistry` under their names, over
--     `Registry W`, what they call of the store, the catalogs and the clock.
--   Registry/Operations/Setup.antt and Registry/Setup.antt: the guided setup of the same file, and
--     the vault of crates/tinymcp/src/registry/setup/types.rs.
--   Registry/Boot.antt: crates/tinymcp/src/registry/boot/types.rs.
--   Registry/Curation.antt: crates/tinymcp/src/registry/curation/types.rs, the order and filters of a
--     search.
--   Registry/Store.antt and its children Claims, Rows, ToolCache and Secrets:
--     crates/tinymcp/src/registry/store (types.rs, tool_cache.rs) under its function names.
--     `session_store` is what the sessions call of it. `StoragePorts W` is the host's storage with
--     the coding of its documents; a call of it is one step, before which other tasks may have
--     changed the world. Registry/Operations/OffRows.antt and KeptSecrets.antt put this store under
--     the operations of the registry.
--   AgentTools/Arguments.antt: crates/tinymcp/src/agent_tools/arguments.rs.
--   Error.antt, Registry.antt, Transport/Wire.antt, Json.antt: crates/tinymcp/src/error/mod.rs, the
--     records of crates/tinymcp-bus/src (registry/types.rs, transport/types.rs) that the parts above
--     use, and JSON values.
--   Common.antt and its children: maps, sorted lists, machine words, characters, results and
--     effects.
--
-- Bounds and fuel. Durations and instants are nanoseconds, the times of sign-ins seconds and those
-- of the store milliseconds; the counters of the supervisor are 32-bit and its waits 64-bit, with
-- the saturating arithmetic of the source written out. Lengths of texts are bytes of their UTF-8.
-- The loops of the supervisor run over the list of instants or rounds they are given. The loop of
-- `reservation_with_action` runs on a number of rounds, since another thread may take its
-- reservation away each time; where nobody does so in the first round, one round is enough. Every other loop is over a
-- list.
--
-- Not modelled: log lines; the JSON parser and printer, which are a parameter (`Codec`), with the
-- law on printed arrays as a hypothesis where it is used; the bytes of a JSON number beyond its two
-- integer readings; the parsing of URLs and IP addresses; clocks, HTTP, processes, files and the
-- database. Two writes of a response are one write here, since a failed line drops what it has
-- written. A lock of the table of sessions is taken at once: other tasks run only where a call waits
-- for the store, a client or the network. An operation that stops halfway because its task is
-- dropped is not modelled. The rest of the transports and of OAuth, the registry's sources and
-- browse cache, the names of agent tools and the bridge to the bus have no file here: they are I/O
-- around the parts above, or parts on their own.
mod Common
pub mod Json
pub mod Registry
pub mod Error
pub mod Supervisor
pub mod Lifecycle
pub mod AgentTools
pub mod Oauth
pub mod Server
pub mod Transport
mod Tests
