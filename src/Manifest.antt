-- ===== src/Manifest.antt =====
-- apps/player/src/core/manifest.ts and types.ts: the signed playback manifest of the player.
-- `Validation` is `assertManifest` and the functions that it calls, `Signature` the reading of a
-- signed envelope; the manager over the store is in `Player`.
pub mod Types
pub mod Validation
pub mod Kinds
pub mod SoundAsset
pub mod Items
pub mod WellFormed
pub mod Signature
pub mod Genuine
