-- ===== src/Storage.antt =====
-- The append-only storage engine, internal/repo/core.
pub mod Crc
pub mod Domains
pub mod Frame
pub mod Header
pub mod Snapshot
pub mod Engine
pub mod Disk
pub mod Tail
pub mod Write
pub mod Delete
pub mod Read
pub mod Recovery
pub mod Ready
pub mod Store
pub mod Compact
pub mod Lifecycle
pub mod Fresh
pub mod View
