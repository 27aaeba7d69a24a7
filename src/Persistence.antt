-- ===== src/Persistence.antt =====
-- The directory persistence: binary encoding, checksums, write-ahead log, snapshots, the engine.
pub mod Result
pub mod Binary
pub mod Crc32
pub mod Wal
pub mod Snapshot
pub mod Engine
mod Examples
