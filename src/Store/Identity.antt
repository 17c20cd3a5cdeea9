-- ===== src/Store/Identity.antt =====
-- apps/api/src/store/memory.ts: users and their sessions. `Mutations` has what an operator changes,
-- `Bootstrap` the rotation of a bootstrap password; `Owners`, `Continuity` and `Sessions` have the
-- theorems. `now` is the reading of the clock. Whether the audit events of a call pass
-- `assertAuditEventIntegrity` is `is_auditable` of its context; building one that does not throws.
pub mod Mutations
pub mod Bootstrap
pub mod Owners
pub mod Continuity
pub mod Sessions
mod Scenarios
use Prim.Native.String.{String}
use text.Mathlib.Text.{◌==◌ as str_eq}
use screen_goblin.Prelude.{
  ℕ, suc, ◌+◌, ◌-◌, Bool, true, false, not, ◌||◌, ◌&&◌, Option, none, some, List, [], ◌∷◌, ◌++◌,
  map, if◌then◌else◌, ltb, leb, ◌==◌, is_some, length,
}
use screen_goblin.Prelude.Texts.{includes, unique}
use screen_goblin.Prelude.Sorting.{sort}
use screen_goblin.Prelude.Search.{any, find, filter, update_if}
use screen_goblin.Authorization.Policy.{Role, owner, admin, publisher, viewer}
use screen_goblin.Store.Records.{
  User, UserSession, Purpose, full, bootstrap_password_rotation, Pairing, PairingAttempt, pending,
  PairingStatus, AuditRecord, Outcome, done, refused, failed, is_same_text, is_same_time,
}

-- The fields of `MemoryStore` that these operations read or write.
pub record IdentityStore : Type 0 where
  pub users : List User
  pub user_sessions : List UserSession
  pub pairings : List Pairing
  pub pairing_attempts : List PairingAttempt
  pub audit_records : List AuditRecord

-- `UserMutationAuditContext`.
pub record UserAudit : Type 0 where
  pub actor_user_id : String
  pub is_auditable : Bool

-- `SystemIdentityMutationAuditContext`: whether the trimmed reason has 1 to 500 characters.
pub record SystemAudit : Type 0 where
  pub has_reason : Bool
  pub is_auditable : Bool

pub data Refusal : Type 0 where
  forbidden not_found owner_continuity_required : Refusal

abbrev pub Answer : Type 0 → Type 0
Answer A = IdentityStore × Outcome A Refusal

abbrev pub is_owner : Role → Bool
is_owner owner = true
is_owner _ = false

abbrev pub rank : Role → ℕ
rank owner = 0
rank admin = 1
rank publisher = 2
rank viewer = 3

abbrev pub is_same_role : Role → Role → Bool
is_same_role a b = rank a == rank b

abbrev pub is_active : User → Bool
is_active u = not (is_some u.disabled_at)

abbrev pub is_member : String → String → User → Bool
is_member user_id org u = str_eq u.id user_id && str_eq u.organization_id org

unfoldable pub find_session_user : String → String → List User → Option User
find_session_user user_id org us = find (λ (u : User). is_member user_id org u && is_active u) us

-- `session.purpose ?? "FULL"`.
abbrev pub is_full : Option Purpose → Bool
is_full (some bootstrap_password_rotation) = false
is_full _ = true

abbrev pub is_live_session : String → String → String → ℕ → UserSession → Bool
is_live_session user_id org token now s =
    str_eq s.user_id user_id
    && str_eq s.organization_id org
    && str_eq s.token_hash token
    && not (is_some s.revoked_at)
    && ltb now s.expires_at

-- Whether the purpose of a session fits the bootstrap password of its user.
unfoldable pub fits_purpose : ℕ → UserSession → User → Bool
fits_purpose now s u =
    if is_full s.purpose
    then not (is_some u.bootstrap_password_expires_at)
    else elim u.bootstrap_password_expires_at [
      | none ↦ false
      | some e ↦ ltb now e && leb s.expires_at e
    ]

-- Of the session that was found and its user.
unfoldable pub active_user : ℕ → Option UserSession → Option User → Option User
active_user now none u = none
active_user now (some s) none = none
active_user now (some s) (some u) =
    if u.authentication_epoch == s.authentication_epoch
      && u.authorization_epoch == s.authorization_epoch
      && fits_purpose now s u
    then some u
    else none

unfoldable pub find_active_user_session : String → String → String → ℕ → IdentityStore → Option User
find_active_user_session user_id org token now s =
    active_user now (find (λ c. is_live_session user_id org token now c) s.user_sessions)
      (find_session_user user_id org s.users)

-- `UserSessionCreateInput`.
pub record SessionInput : Type 0 where
  pub token_hash : String
  pub expires_at : Option ℕ
  pub expected_password_hash : String
  pub expected_role : Role
  pub expected_authentication_epoch : ℕ
  pub expected_authorization_epoch : ℕ
  pub purpose : Option Purpose
  pub expected_bootstrap_password_expires_at : Option ℕ

-- Ten minutes.
abbrev pub max_rotation_session : ℕ
max_rotation_session = 600000

-- The part of the guard that depends on the purpose; `expires` is after `now`.
unfoldable pub is_wrong_purpose : ℕ → ℕ → Option Purpose → Option ℕ → Bool
is_wrong_purpose now expires purpose bootstrap =
    if is_full purpose then is_some bootstrap else elim bootstrap [
      | none ↦ true
      | some e ↦ leb e now || ltb e expires || ltb max_rotation_session (expires - now)
    ]

unfoldable pub is_session_refused : ℕ → ℕ → SessionInput → User → Bool
is_session_refused now expires i u =
    not (str_eq u.password_hash i.expected_password_hash)
    || not (is_same_role u.role i.expected_role)
    || not (u.authentication_epoch == i.expected_authentication_epoch)
    || not (u.authorization_epoch == i.expected_authorization_epoch)
    || not (is_same_time u.bootstrap_password_expires_at i.expected_bootstrap_password_expires_at)
    || is_wrong_purpose now expires i.purpose u.bootstrap_password_expires_at
    || leb expires now

abbrev pub event : String → Option String → String → String → Option String → AuditRecord
event org actor action entity_type entity_id = record {
  organization_id = org;
  actor_user_id = actor;
  action = action;
  entity_type = entity_type;
  entity_id = entity_id;
}

abbrev pub new_session : String → String → ℕ → ℕ → SessionInput → User → UserSession
new_session id org now expires i u = record {
  id = id;
  organization_id = org;
  user_id = u.id;
  token_hash = i.token_hash;
  authentication_epoch = u.authentication_epoch;
  authorization_epoch = u.authorization_epoch;
  purpose = some (if is_full i.purpose then full else bootstrap_password_rotation);
  expires_at = expires;
  revoked_at = none;
  created_at = now;
}

-- `id` is the new session's; expired sessions are dropped.
unfoldable pub open_session :
    String → String → ℕ → ℕ → SessionInput → User → UserAudit → IdentityStore → Answer UserSession
open_session id org now expires i u audit s =
    let session = new_session id org now expires i u in
    if is_session_refused now expires i u
    then (s, refused forbidden)
    else if not audit.is_auditable
    then (s, failed)
    else (
      record s {
        user_sessions =
            filter (λ (c : UserSession). ltb now c.expires_at) s.user_sessions ++ session ∷ [];
        audit_records =
            s.audit_records
            ++ event org (some u.id) "auth.login_succeeded" "session" (some id) ∷ [];
      },
      done session,
    )

unfoldable pub create_user_session :
    String → String → ℕ → SessionInput → UserAudit → IdentityStore → Answer UserSession
create_user_session id org now i audit s = elim i.expires_at [
  | none ↦ (s, refused forbidden)
  | some expires ↦ elim (find_session_user audit.actor_user_id org s.users) [
    | none ↦ (s, refused forbidden)
    | some u ↦ open_session id org now expires i u audit s
  ]
]

-- A session of the user in the organization that is not revoked is revoked.
abbrev pub revoke : ℕ → UserSession → UserSession
revoke now c = record c { revoked_at = some now }

abbrev pub is_open_of : String → UserSession → Bool
is_open_of user_id c = str_eq c.user_id user_id && not (is_some c.revoked_at)

abbrev pub is_open_in : String → String → UserSession → Bool
is_open_in user_id org c =
    str_eq c.user_id user_id && str_eq c.organization_id org && not (is_some c.revoked_at)

-- The first one that passes the test is changed.
unfoldable pub update_first :
    (UserSession → Bool) → (UserSession → UserSession) → List UserSession → List UserSession
update_first test change [] = []
update_first test change (x ∷ xs) =
    let rest = update_first test change xs in if test x then change x ∷ xs else x ∷ rest

unfoldable pub revoke_user_session :
    String → String → String → ℕ → UserAudit → IdentityStore → Answer (Unit {0})
revoke_user_session user_id org token now audit s =
    let live = λ (c : UserSession). is_live_session user_id org token now c in
    elim (find live s.user_sessions) [
      | none ↦ (s, refused not_found)
      | some session ↦
          if not (is_some (find_session_user user_id org s.users))
            || not (str_eq audit.actor_user_id user_id)
          then (s, refused not_found)
          else if not audit.is_auditable
          then (s, failed)
          else (
            record s {
              user_sessions = update_first live (revoke now) s.user_sessions;
              audit_records =
                  s.audit_records
                  ++ event org (some user_id) "auth.logout" "session" (some session.id) ∷ [];
            },
            done tt,
          )
    ]
