-- ===== src/Requirements.antt =====
-- What a church requires and where a volunteer stands: apps/requirements.
pub mod Forms
pub mod Definition
pub mod Instance
pub mod Records
pub mod Gate
pub mod Dependents
pub mod Reconcile
pub mod Sync
pub mod Progress
pub mod Crc
pub mod Decisions
pub mod Commit
pub mod Nightly
pub mod Sweep
pub mod Standing
