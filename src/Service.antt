-- ===== src/Service.antt =====
-- internal/application/s3app/service.go: the object service of the leader.
pub mod Leases
pub mod Writes
pub mod Syncs
pub mod Requests
pub mod Multipart
pub mod Atomicity
pub mod Replicated
mod Examples
