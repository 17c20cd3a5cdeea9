-- ===== src/Player/Store.antt =====
-- apps/player/src/core/storage.ts: `IndexedDbPlayerStore`. A method is one transaction on the
-- object store; `none` is a key that is not there. A transaction whose callback throws aborts
-- and changes nothing. Credentials are kept as they are given.
use Prim.Native.String.{String}
use screen_goblin.Prelude.{ℕ, Bool, false, not, ◌||◌, ◌&&◌, Option, none, some, if◌then◌else◌}
use screen_goblin.Prelude.Js.{Js, undefined, truthy, js_eq, is_undefined}
use screen_goblin.Manifest.Types.{Manifest, Signed}
use screen_goblin.Manifest.Validation.{is}
use screen_goblin.Manifest.Signature.{has_ended}

-- `Credentials`: proof keys, or a bearer token for development.
pub data Secret : Type 0 where
  proof : (credential_id key_id : String) → Secret
  bearer : (device_token : String) → Secret

pub record Credentials : Type 0 where
  pub installation_id : String
  pub screen_id : String
  pub api_base_url : String
  pub heartbeat_interval_seconds : ℕ
  pub manifest_verification_key : String
  pub secret : Secret

-- `PendingProofPairing`; `is_pending` is its stage, `approval` numbers the response it holds.
pub record PendingPairing : Type 0 where
  pub is_pending : Bool
  pub api_base_url : String
  pub final_body : String
  pub expected_key_id : String
  pub installation_id : String
  pub expires_at : String
  pub approval : Option ℕ

pub record Database : Type 0 where
  pub credentials : Option Credentials
  pub pending_pairing : Option PendingPairing
  pub active : Option Signed
  pub previous : Option Signed

unfoldable pub put_credentials : Credentials → Database → Database
put_credentials c db = record db { credentials = some c }

unfoldable pub put_pending_pairing : PendingPairing → Database → Database
put_pending_pairing v db = record db { pending_pairing = some v }

unfoldable pub delete_pending_pairing : Database → Database
delete_pending_pairing db = record db { pending_pairing = none }

unfoldable pub clear_provisioned_state : Database → Database
clear_provisioned_state db = record db { credentials = none; active = none; previous = none }

unfoldable pub complete_pairing : Credentials → Database → Database
complete_pairing c db = record db { credentials = some c; pending_pairing = none }

-- `active?.manifest`.
abbrev pub shown : Option Signed → Option Manifest
shown none = none
shown (some s) = s.manifest

-- `active?.manifest?.version`.
abbrev pub version_of : Option Manifest → Js
version_of none = undefined
version_of (some m) = m.version

-- Whether the release that is replaced may become the rollback baseline.
abbrev pub is_baseline : Option Manifest → Bool
is_baseline none = false
is_baseline (some m) = not (is m.priority "emergency") && not (truthy m.withdrawn)

-- `none` is an envelope with no manifest, at which the callback throws.
unfoldable pub activate_manifest : Signed → Database → Option Database
activate_manifest value db = elim value.manifest [
  | none ↦ none
  | some m ↦ some (
      if truthy m.withdrawn
      then record db { active = some value; previous = none }
      else if not (js_eq (version_of (shown db.active)) m.version) && is_baseline (shown db.active)
      then record db { active = some value; previous = db.active }
      else record db { active = some value })
]

-- An `expected` version that is `undefined` is not asked for.
unfoldable pub clear_previous_manifest : Js → Database → Database
clear_previous_manifest expected db =
    if is_undefined expected || js_eq (version_of (shown db.active)) expected
    then record db { previous = none }
    else db

unfoldable pub rollback : Js → Option ℕ → ℕ → Database → Database × Option Signed
rollback expected eligible_until now db =
    if not (is_undefined expected) && not (js_eq (version_of (shown db.active)) expected)
    then (db, db.active)
    else if has_ended eligible_until now
    then (record db { previous = none }, none)
    else (record db { active = db.previous }, db.previous)

unfoldable pub clear_manifests : Database → Database
clear_manifests db = record db { active = none; previous = none }

unfoldable pub clear : Database → Database
clear db = record { credentials = none; pending_pairing = none; active = none; previous = none }
