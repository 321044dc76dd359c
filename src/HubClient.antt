-- ===== src/HubClient.antt =====
-- internal/hubclient/client.go: the bridge's HTTP calls of the hub, with their retries.
pub mod Retry
pub mod Calls
pub mod Hub
pub mod AckOnce
