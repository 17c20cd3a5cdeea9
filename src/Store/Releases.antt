-- ===== src/Store/Releases.antt =====
-- apps/api/src/releases/canonical.ts and the release candidates of apps/api/src/store/memory.ts.
-- `Types` has the records, `Canonical` the snapshots and their digests, `Idempotency` the replay of
-- a command, `Candidates` the commands up to the approval, `Publication`, `Pruning` and `Creation`
-- the others; the modules after them have the theorems.
pub mod Types
pub mod Canonical
pub mod Idempotency
pub mod Candidates
pub mod Publication
pub mod Pruning
pub mod Creation
pub mod Guards
pub mod Publishing
pub mod Lifecycle
pub mod Refinement
pub mod Retention
pub mod Replay
pub mod Idempotence
pub mod Review
pub mod Approvals
mod Scenarios
