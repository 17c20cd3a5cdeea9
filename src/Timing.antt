-- ===== src/Timing.antt =====
-- Small timing components of the player: apps/player/src/core/signed-deadline.ts, uptime.ts and
-- single-flight.ts.
mod Scenarios
pub mod Deadline
pub mod Uptime
pub mod SingleFlight
