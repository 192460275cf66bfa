-- ===== src/Generation.antt =====
-- Platform generations: their identities, the process-local cancellation registry, and the durable
-- lifecycle record.
pub mod Identity
pub mod Registry
pub mod Snapshot
pub mod Changes
pub mod Codec
pub mod Store
pub mod Claim
pub mod Control
pub mod Lifecycle
pub mod Receipt
mod Samples
