-- ===== src/Limits.antt =====
-- Guards of the API: apps/api/src/utils/rate-limit.ts and apps/api/src/utils/media-policy.ts.
mod Scenarios
pub mod RateLimit
pub mod MediaPolicy
