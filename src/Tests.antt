-- ===== src/Tests.antt =====
-- Concrete inputs, and the witnesses of the properties at them.
pub mod Data
pub mod ApiTests
mod HubTests
mod IpcTests
mod QueueTests
pub mod AckTests
pub mod PushTests
pub mod MemoryBear
mod BridgeTests
pub mod SyncTests
pub mod BearDbTests
mod XCallbackTests
mod HubClientTests
mod ReadTests
