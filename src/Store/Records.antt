-- ===== src/Store/Records.antt =====
-- apps/api/src/domain/types.ts: the records of users, sessions and pairings, and the audit
-- trail. An instant that the store writes or compares is a canonical text, of which the order as
-- texts is the order in time: it counts milliseconds. What a record carries without any test on
-- it is left out.
use Prim.Native.String.{String}
use text.Mathlib.Text.{◌==◌ as str_eq}
use screen_goblin.Prelude.{ℕ, ◌==◌, Bool, true, false, Option, none, some}
use screen_goblin.Authorization.Policy.{Role}

pub data Purpose : Type 0 where
  full bootstrap_password_rotation : Purpose

-- `SessionUser`: a user's membership of one organization.
pub record User : Type 0 where
  pub id : String
  pub email : String
  pub name : String
  pub password_hash : String
  pub organization_id : String
  pub role : Role
  pub authentication_epoch : ℕ
  pub authorization_epoch : ℕ
  pub bootstrap_password_expires_at : Option ℕ
  pub disabled_at : Option ℕ

-- `UserSessionRecord`.
pub record UserSession : Type 0 where
  pub id : String
  pub organization_id : String
  pub user_id : String
  pub token_hash : String
  pub authentication_epoch : ℕ
  pub authorization_epoch : ℕ
  pub purpose : Option Purpose
  pub expires_at : ℕ
  pub revoked_at : Option ℕ
  pub created_at : ℕ

pub data PairingStatus : Type 0 where
  pending claimed expired revoked : PairingStatus

-- `PairingRecord`, as far as the revocation of a grant reads it.
pub record Pairing : Type 0 where
  pub id : String
  pub organization_id : String
  pub authorized_by_user_id : Option String
  pub status : PairingStatus

-- `PairingAttemptRecord`, likewise.
pub record PairingAttempt : Type 0 where
  pub pairing_code_id : String
  pub bound_credential_id : Option String
  pub cancelled_at : Option ℕ

-- `AuditRecord` without its identifier, its time and what only describes it.
pub record AuditRecord : Type 0 where
  pub organization_id : String
  pub actor_user_id : Option String
  pub action : String
  pub entity_type : String
  pub entity_id : Option String

-- What an operation of the store answers: its result, a reason, or an exception.
pub data Outcome (A : Type 0) (R : Type 0) : Type 0 where
  done : A → Outcome A R
  refused : R → Outcome A R
  failed : Outcome A R

-- `left === right` of optional values.
abbrev pub is_same_text : Option String → Option String → Bool
is_same_text none none = true
is_same_text (some a) (some b) = str_eq a b
is_same_text _ _ = false

abbrev pub is_same_time : Option ℕ → Option ℕ → Bool
is_same_time none none = true
is_same_time (some a) (some b) = a == b
is_same_time _ _ = false
