-- ===== src/Player/Manager.antt =====
-- apps/player/src/core/manifest.ts: `ManifestManager`. Each function is one operation of the
-- state queue, which runs them one after another. `clock` gives the readings of `Date.now()` in
-- the operation, in order of their places in the code, `generation` those of the staging
-- generation, which `cancelPendingStages` may raise at any `await`.
use screen_goblin.Prelude.{
  ℕ, ◌+◌, Bool, true, false, not, ◌||◌, ◌&&◌, Option, none, some, if◌then◌else◌, is_some, ◌==◌,
}
use screen_goblin.Prelude.Js.{Js, truthy, js_eq, is_undefined}
use screen_goblin.Manifest.Types.{
  Manifest, Signed, Trust, Runtime, Result, ok, threw, throw_if, ◌>>◌, bad_signature, expired,
  cancelled, older_release, ambiguous_release, storage_failed,
}
use screen_goblin.Manifest.Validation.{date_le, date_lt}
use screen_goblin.Manifest.Signature.{
  verify_signed, manifest_playback_ends_at, has_ended, is_expired_emergency, is_playable,
  rollback_deadline,
}
use screen_goblin.Player.Store.{
  Database, activate_manifest, clear_previous_manifest, rollback, clear_manifests,
}

-- `left === right` between dates.
abbrev pub date_eq : Option ℕ → Option ℕ → Bool
date_eq none b = false
date_eq (some a) none = false
date_eq (some a) (some b) = a == b

unfoldable pub assert_not_older : Runtime → Manifest → Option Manifest → Result (Unit {0})
assert_not_older w candidate none = ok tt
assert_not_older w candidate (some active) =
    let generated = w.date_parse candidate.generated_at in
    let current = w.date_parse active.generated_at in
    do
      throw_if (date_lt generated current) older_release
      throw_if
          (date_eq generated current
            && not (js_eq candidate.version active.version)
            && (not (is_undefined candidate.request_challenge_id)
                || not (is_undefined active.request_challenge_id)))
          ambiguous_release
      ok tt

abbrev pub assert_generation : ℕ → ℕ → Result (Unit {0})
assert_generation expected current = throw_if (not (expected == current)) cancelled

-- `signedActive && !active`.
abbrev pub is_rejected : Option Signed → Option Manifest → Bool
is_rejected none m = false
is_rejected (some s) none = true
is_rejected (some s) (some m) = false

-- What the operation answers: nothing for a release that is withdrawn or has ended.
abbrev pub playing : Manifest → Bool → Option Manifest
playing m ended = if truthy m.withdrawn || ended then none else some m

-- From the reading of the active release on; `ended` was computed before.
unfoldable pub activate_checked :
    Runtime
    → Trust
    → (ℕ → ℕ)
    → (ℕ → ℕ)
    → ℕ
    → Signed
    → Manifest
    → Bool
    → Database
    → Database × Result (Option Manifest)
activate_checked w trust clock generation expected signed candidate ended db =
    let active = verify_signed w (clock 3) trust db.active in
    let db' = if is_rejected db.active active then clear_manifests db else db in
    elim (assert_generation expected (generation 2)) [
      | threw e ↦ (db, threw e)
      | ok _ ↦
          elim (assert_not_older w candidate active >> assert_generation expected (generation 3)) [
            | threw e ↦ (db', threw e)
            | ok _ ↦ elim (activate_manifest signed db') [
              | none ↦ (db', threw storage_failed)
              | some next ↦ (next, ok (playing candidate ended))
            ]
          ]
    ]

unfoldable pub activate_exclusive :
    Runtime
    → Trust
    → (ℕ → ℕ)
    → (ℕ → ℕ)
    → ℕ
    → Signed
    → Database
    → Database × Result (Option Manifest)
activate_exclusive w trust clock generation expected signed db =
    elim (assert_generation expected (generation 0)) [
      | threw e ↦ (db, threw e)
      | ok _ ↦ elim (assert_generation expected (generation 1)) [
        | threw e ↦ (db, threw e)
        | ok _ ↦ elim (verify_signed w (clock 0) trust (some signed)) [
          | none ↦ (db, threw bad_signature)
          | some candidate ↦
              if date_le (w.date_parse candidate.valid_until) (some (clock 1))
              then (db, threw expired)
              else activate_checked w trust clock generation expected signed candidate
                  (has_ended (manifest_playback_ends_at w candidate) (clock 2)) db
        ]
      ]
    ]

abbrev pub from : ℕ → (ℕ → ℕ) → ℕ → ℕ
from n clock k = clock (n + k)

abbrev pub if_playable : Runtime → (ℕ → ℕ) → Option Manifest → Option Manifest
if_playable w clock m = if is_playable w clock m then m else none

-- `candidate?.priority === "emergency" && …`.
abbrev pub is_over : Runtime → ℕ → Option Manifest → Bool
is_over w now none = false
is_over w now (some m) = is_expired_emergency w now m

-- The active release is an emergency that is over: the release before it is restored.
unfoldable pub recover_emergency :
    Runtime → Trust → (ℕ → ℕ) → Manifest → Database → Database × Option Manifest
recover_emergency w trust clock active db =
    let candidate = verify_signed w (clock 0) trust db.previous in
    let (next, resulting) = rollback active.version none (clock 5) db in
    let verified = verify_signed w (clock 6) trust resulting in
    if is_rejected db.previous candidate
    then (clear_manifests db, none)
    else if is_over w (clock 1) candidate
    then (clear_previous_manifest active.version db, none)
    else if not (is_playable w (from 2 clock) candidate)
    then (clear_previous_manifest active.version db, none)
    else (next, if_playable w (from 7 clock) verified)

-- With the active release verified.
unfoldable pub recover_verified :
    Runtime → Trust → (ℕ → ℕ) → Option Manifest → Database → Database × Option Manifest
recover_verified w trust clock none db =
    (if is_some db.active || is_some db.previous then clear_manifests db else db, none)
recover_verified w trust clock (some active) db =
    if truthy active.withdrawn
    then (clear_previous_manifest active.version db, none)
    else if is_expired_emergency w (clock 1) active
    then recover_emergency w trust (from 2 clock) active db
    else if has_ended (manifest_playback_ends_at w active) (clock 2)
    then (clear_previous_manifest active.version db, none)
    else (db, some active)

unfoldable pub recover_exclusive : Runtime → Trust → (ℕ → ℕ) → Database → Database × Option Manifest
recover_exclusive w trust clock db =
    recover_verified w trust clock (verify_signed w (clock 0) trust db.active) db

-- From the reading of the previous release on.
unfoldable pub rollback_checked :
    Runtime
    → Trust
    → Js
    → (ℕ → ℕ)
    → Manifest
    → Option Manifest
    → Database
    → Database × Option Manifest
rollback_checked w trust expected clock active none db = (clear_manifests db, none)
rollback_checked w trust expected clock active (some previous) db =
    let (next, resulting) = rollback expected (rollback_deadline w active previous) (clock 3) db in
    let verified = verify_signed w (clock 4) trust resulting in
    if not (is_playable w clock (some previous))
    then (clear_manifests db, none)
    else if is_rejected resulting verified
    then (clear_manifests next, none)
    else (next, if_playable w (from 5 clock) verified)

-- With the active release verified.
unfoldable pub rollback_verified :
    Runtime → Trust → Js → (ℕ → ℕ) → Option Manifest → Database → Database × Option Manifest
rollback_verified w trust expected clock none db =
    (if is_some db.active || is_some db.previous then clear_manifests db else db, none)
rollback_verified w trust expected clock (some active) db =
    if truthy active.withdrawn || has_ended (manifest_playback_ends_at w active) (clock 1)
    then (clear_previous_manifest active.version db, none)
    else if not (is_undefined expected) && not (js_eq active.version expected)
    then (db, if_playable w (from 2 clock) (some active))
    else rollback_checked w trust expected (from 6 clock) active
        (verify_signed w (clock 5) trust db.previous) db

-- `expected` is `undefined` where the caller names no version.
unfoldable pub rollback_exclusive :
    Runtime → Trust → Js → (ℕ → ℕ) → Database → Database × Option Manifest
rollback_exclusive w trust expected clock db =
    rollback_verified w trust expected clock (verify_signed w (clock 0) trust db.active) db
