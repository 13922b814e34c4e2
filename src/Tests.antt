-- ===== src/Tests.antt =====
-- Runs of the definitions, and the theorems at concrete inputs.
mod SupervisorTests
mod LifecycleTests
mod TableTests
mod ServerTests
mod ArgsTests
mod OauthTests
mod TransportTests
mod ErrorTests
mod RegistryWorld
mod RegistryTests
mod DialTests
mod SetupTests
mod StoreTests
