-- ===== src/XCallback.antt =====
-- internal/xcallback/xcallback.go: the driver that runs bear-xcall, and Bear as the bridge meets it
-- through this driver and internal/beardb/sqlite.go.
pub mod Driver
pub mod RealBear
pub mod Spaces
pub mod Called
