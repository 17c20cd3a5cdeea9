-- ===== src/Store/Identity/Bootstrap.antt =====
-- apps/api/src/store/memory.ts: `rotateBootstrapPasswordAndAudit`.
use Prim.Native.String.{String}
use text.Mathlib.Text.{◌==◌ as str_eq}
use screen_goblin.Prelude.{
  ℕ, suc, Bool, true, false, not, ◌||◌, ◌&&◌, Option, none, some, List, ◌++◌, map, if◌then◌else◌,
  leb, ◌==◌, is_some,
}
use screen_goblin.Prelude.Search.{any, find, filter, update_if}
use screen_goblin.Store.Records.{
  User, UserSession, Purpose, bootstrap_password_rotation, done, refused, failed, is_same_time,
}
use screen_goblin.Store.Identity.{
  IdentityStore, UserAudit, forbidden, Answer, is_member, is_live_session, event, revoke,
  is_open_of,
}
use screen_goblin.Store.Identity.Mutations.{revoke_pending_issuer_grants, is_user, organization_ids}

-- `BootstrapPasswordRotationInput`; `approved` tells if the new hash is an approved one.
pub record RotationInput : Type 0 where
  pub token_hash : String
  pub expected_password_hash : String
  pub expected_bootstrap_password_expires_at : ℕ
  pub expected_authentication_epoch : ℕ
  pub expected_authorization_epoch : ℕ
  pub password_hash : String
  pub approved : Bool

abbrev pub is_rotation : Option Purpose → Bool
is_rotation (some bootstrap_password_rotation) = true
is_rotation _ = false

-- Whether a membership is not what the caller expects of all.
abbrev pub is_unexpected : RotationInput → User → Bool
is_unexpected i m =
    is_some m.disabled_at
    || not (str_eq m.password_hash i.expected_password_hash)
    || not (
        is_same_time m.bootstrap_password_expires_at
          (some i.expected_bootstrap_password_expires_at))
    || not (m.authentication_epoch == i.expected_authentication_epoch)

unfoldable pub is_rotation_refused :
    String → ℕ → RotationInput → UserAudit → List User → User → UserSession → Bool
is_rotation_refused user_id now i audit memberships current session =
    not (str_eq audit.actor_user_id user_id)
    || any (is_unexpected i) memberships
    || is_unexpected i current
    || leb i.expected_bootstrap_password_expires_at now
    || not (current.authorization_epoch == i.expected_authorization_epoch)
    || not (session.authentication_epoch == i.expected_authentication_epoch)
    || not (session.authorization_epoch == i.expected_authorization_epoch)

-- The audit events are built last: where one throws, the change stays.
unfoldable pub rotate_found :
    (String → String → Bool)
    → String
    → ℕ
    → RotationInput
    → UserAudit
    → User
    → IdentityStore
    → Answer (List String)
rotate_found text_le user_id now i audit current s =
    let orgs = organization_ids text_le (filter (is_user user_id) s.users) in
    let t = revoke_pending_issuer_grants user_id orgs now s in
    let u = record t {
      users =
          update_if (is_user user_id)
            (λ (v : User). record v {
              bootstrap_password_expires_at = none;
              password_hash = i.password_hash;
              authentication_epoch = suc current.authentication_epoch;
            })
            t.users;
      user_sessions = update_if (is_open_of user_id) (revoke now) t.user_sessions;
    } in
    if not audit.is_auditable then (u, failed) else (
      record u {
        audit_records =
            u.audit_records
            ++ map
                (λ org.
                  event org (some user_id) "auth.bootstrap_password_rotated" "user" (some user_id))
                orgs;
      },
      done orgs,
    )

unfoldable pub rotate_bootstrap_password :
    (String → String → Bool)
    → String
    → String
    → ℕ
    → RotationInput
    → UserAudit
    → IdentityStore
    → Answer (List String)
rotate_bootstrap_password text_le user_id org now i audit s =
    if not i.approved then (s, failed) else elim (find (is_member user_id org) s.users) [
      | none ↦ (s, refused forbidden)
      | some current ↦
          elim (find
            (λ (c : UserSession).
              is_live_session user_id org i.token_hash now c && is_rotation c.purpose)
            s.user_sessions) [
              | none ↦ (s, refused forbidden)
              | some session ↦
                  if is_rotation_refused user_id now i audit (filter (is_user user_id) s.users)
                    current session
                  then (s, refused forbidden)
                  else rotate_found text_le user_id now i audit current s
            ]
    ]
