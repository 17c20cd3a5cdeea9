-- ===== src/Schedule.antt =====
-- apps/api/src/utils/schedule.ts: when a schedule is in its window.
mod Scenarios
pub mod Zoned
pub mod Windows
pub mod Resolution
pub mod Memo
