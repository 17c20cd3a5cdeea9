-- ===== src/Store/Devices.antt =====
-- apps/api/src/store/memory.ts: device credentials and their challenges. `Challenges` has the issue
-- of a challenge, `Proofs` its use, `Traces` the interleavings; `Freshness` and `SingleUse` have
-- the theorem.
pub mod Challenges
pub mod Proofs
pub mod Traces
pub mod Freshness
pub mod SingleUse
mod Scenarios
