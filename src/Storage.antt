-- ===== src/Storage.antt =====
-- internal/infrastructure/storage/fs/filesystem.go: the storage of one node on its disk. The
-- methods are actions of `Disk.M`; the repository itself is the disk below its root.
pub mod Layout
pub mod Buckets
pub mod Transactions
pub mod Objects
pub mod Frames
pub mod Isolation
pub mod Moves
pub mod Commit
pub mod Staging
pub mod Aborted
pub mod Shards
pub mod Uploads
mod Examples
