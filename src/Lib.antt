-- ===== src/Lib.antt =====
-- ScreenGoblin: a model of the parts that decide what a screen shows and who may change it.
--
-- The player (apps/player/src/core) takes signed manifests from the API and shows them.
--   - Manifest models manifest.ts and types.ts up to `verifySignedPlayerManifest`. Types has the
--     records, Validation `assertManifest` and what it calls, Signature the normalization of a
--     payload, the verification of an envelope and the boundaries of playback; Kinds,
--     SoundAsset, Items, WellFormed and Genuine have the theorems. A field is a JavaScript value
--     that is not narrowed yet (Prelude.Js), so that the tests on types are those of the code.
--   - Player models storage.ts (Store) and `ManifestManager` of manifest.ts (Manager), which
--     calls the store and the verification. Activation, Recovery, Withdrawal and Baseline have
--     the theorems. The store is the state, one method one transaction that takes place whole or
--     not at all. A queued operation runs alone, so it is one function of the store; each place
--     where the code reads the clock, or the generation that a cancellation raises, has a
--     reading of its own, about which nothing is assumed.
--   - Heartbeat models heartbeat-scheduler.ts. The timers and requests that the browser holds
--     are part of the state, and an event is a call of a method, a timer that fires or a promise
--     that settles. One synchronous turn reads the clock once. Delay has the arithmetic of the
--     delays, over exact fractions where the code has doubles; a sample of `random` is a
--     fraction. State has the records. Ownership, Single, Steady, Flights, Requests and Liveness
--     have the invariants.
--   - Timing models signed-deadline.ts (Deadline), single-flight.ts and uptime.ts.
--
-- The API (apps/api/src) decides what is published and for whom.
--   - Authorization models authorization/policy.ts and compatibility.ts (Policy) and scoped.ts
--     (Records and Scoped), with the capabilities of packages/contracts/src/index.ts. Scoped
--     asks Policy for the ceiling of the role. Grants, Context and Soundness have the theorems.
--     A text that is none of the known ones is a value of its own.
--   - Schedule models utils/schedule.ts: Zoned the resolution of a local minute, Memo its memo,
--     Windows the windows and the end of playback. Resolution has the theorems. The binary
--     search runs on fuel, as many rounds as there are minutes between its bounds, which is more
--     than it takes; the theorem on the search shows that this is enough.
--   - Store models apps/api/src/store/memory.ts with the records of domain/types.ts. A call of
--     the store is one function of the state, and its audit events are part of the state. An
--     instant that the store compares is a canonical text, of which the order as texts is the
--     order in time, so it is a number; a new identifier is a parameter of the call that draws
--     it. Whether the audit events of a call pass `assertAuditEventIntegrity`, which throws, is
--     a field `is_auditable` of its context. Identity has the users and their sessions:
--     Mutations has what an operator changes, Bootstrap the rotation of a bootstrap password;
--     Owners, Continuity and Sessions have the theorems. Releases has the release candidates:
--     Types has the records, Canonical models releases/canonical.ts and utils/media-url.ts,
--     Idempotency the replay of commands, Candidates the submission and the approval,
--     Publication the publication, Pruning and Creation the creation. It asks
--     Authorization.Policy for capabilities and Limits.MediaPolicy for the policy. Guards,
--     Publishing, Lifecycle, Refinement, Retention, Replay, Idempotence, Review and Approvals
--     have the theorems. Devices has the challenges of devices (Challenges): a proof is two
--     steps (Proofs), since the verification between them is awaited, and Traces interleaves
--     them with the other calls; Freshness and SingleUse have the theorem. A stored object has a
--     number that stands for its identity, which the code compares. The states of Identity and
--     Releases have `users` in common, which the release operations only read.
--   - Limits models utils/rate-limit.ts (RateLimit, the budget in memory) and
--     utils/media-policy.ts (MediaPolicy).
--
-- What the code takes from its runtime is a parameter: `Date.parse`, `new URL`, `JSON`, the
-- check of signatures, the text that an object is converted to (Manifest.Types.Runtime), the
-- comparison of texts, the parser of instants and SHA-256 (Authorization.Records.Platform),
-- `Intl` and `Date.UTC` (Schedule.Zoned.Calendar), the orders of texts, `new URL` and SHA-256
-- over the JSON text of a snapshot (Store.Releases.Types.Backend), and the test that a password
-- hash is an approved one. Numbers are natural; where the code subtracts, the model says what a
-- negative difference counts as.
--
-- Not modelled: the staging of manifests with its prefetch of assets, the operations of the
-- store in memory on screens, the enrolment of devices, schedules without a review and
-- emergencies, the store in a database, the routes and plugins of the API, the Redis budget,
-- identifiers and keys that are hashes of texts, the precedence of schedules, the network, the
-- caches and keys of the player, and the user interfaces.
mod Prelude
pub mod Heartbeat
pub mod Authorization
pub mod Manifest
pub mod Player
pub mod Timing
pub mod Limits
pub mod Schedule
pub mod Store
