-- ===== src/Player.antt =====
-- apps/player/src/core: the durable store of the player and the manager of its manifests.
mod Scenarios
pub mod Store
pub mod Manager
pub mod Recovery
pub mod Activation
pub mod Withdrawal
pub mod Baseline
