-- ===== src/Snapshots.antt =====
-- internal/snapshots: snapshot files, their manifest, the store that reads them and the writer.
pub mod Disk
pub mod Names
pub mod Files
pub mod Writer
pub mod Store
pub mod Sync
pub mod Overlap
mod Tests
