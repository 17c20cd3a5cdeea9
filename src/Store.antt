-- ===== src/Store.antt =====
-- apps/api/src/store/memory.ts, with the records of apps/api/src/domain/types.ts: the store of
-- the API. `Records` has the records and the state, `Identity` the users and their sessions, `Releases` the
-- releases and their candidates, `Devices` the challenges of devices; `Examples` has users for the examples.
pub mod Records
pub mod Examples
pub mod Identity
pub mod Releases
pub mod Devices
