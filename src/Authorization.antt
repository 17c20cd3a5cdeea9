-- ===== src/Authorization.antt =====
-- apps/api/src/authorization: role capabilities and scoped grants. `Policy` is policy.ts and
-- compatibility.ts, `Records` and `Scoped` are scoped.ts; the others hold their proofs.
mod Scenarios
pub mod Policy
pub mod Records
pub mod Scoped
pub mod Grants
pub mod Context
pub mod Soundness
