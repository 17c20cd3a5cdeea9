-- ===== src/Store/Identity/Mutations.antt =====
-- apps/api/src/store/memory.ts: the changes that an operator makes to users and memberships, with
-- what they do to sessions and to pending grants.
use Prim.Native.String.{String}
use text.Mathlib.Text.{◌==◌ as str_eq}
use screen_goblin.Prelude.{
  ℕ, suc, Bool, true, false, not, ◌||◌, ◌&&◌, Option, none, some, List, [], ◌∷◌, ◌++◌, map,
  if◌then◌else◌, ◌==◌, is_some,
}
use screen_goblin.Prelude.Texts.{includes, unique}
use screen_goblin.Prelude.Sorting.{sort}
use screen_goblin.Prelude.Search.{any, find, filter, update_if}
use screen_goblin.Authorization.Policy.{Role}
use screen_goblin.Store.Records.{
  User, Pairing, PairingAttempt, pending, PairingStatus, AuditRecord, done, refused, failed,
  is_same_text,
}
use screen_goblin.Store.Identity.{
  IdentityStore, SystemAudit, not_found, owner_continuity_required, Answer, is_owner, is_active,
  is_member, event, revoke, is_open_of, is_open_in,
}

-- A pending grant that the user issued in one of the organizations.
abbrev pub is_pending : PairingStatus → Bool
is_pending pending = true
is_pending _ = false

abbrev pub is_issued_by : String → List String → Pairing → Bool
is_issued_by user_id orgs g =
    includes g.organization_id orgs
    && is_same_text g.authorized_by_user_id (some user_id)
    && is_pending g.status

abbrev pub cancel_attempt : ℕ → PairingAttempt → PairingAttempt
cancel_attempt now a = record a {
  cancelled_at = if is_some a.cancelled_at then a.cancelled_at else some now;
}

unfoldable pub cancel_attempts_of : ℕ → List Pairing → List PairingAttempt → List PairingAttempt
cancel_attempts_of now [] as' = as'
cancel_attempts_of now (g ∷ gs) as' = cancel_attempts_of now gs (
    update_if
      (λ (a : PairingAttempt). str_eq a.pairing_code_id g.id && not (is_some a.bound_credential_id))
      (cancel_attempt now) as')

unfoldable pub revoke_pending_issuer_grants :
    String → List String → ℕ → IdentityStore → IdentityStore
revoke_pending_issuer_grants user_id orgs now s = record s {
  pairings =
      update_if (is_issued_by user_id orgs)
        (λ (g : Pairing). record g { status = PairingStatus.revoked }) s.pairings;
  pairing_attempts =
      cancel_attempts_of now (filter (is_issued_by user_id orgs) s.pairings) s.pairing_attempts;
}

-- Another active owner of the organization.
unfoldable pub has_other_active_owner : String → String → List User → Bool
has_other_active_owner org user_id us =
    any
      (λ (u : User).
        str_eq u.organization_id org && not (str_eq u.id user_id) && is_owner u.role && is_active u)
      us

abbrev pub is_user : String → User → Bool
is_user user_id u = str_eq u.id user_id

unfoldable pub organizations_of : List User → List String
organizations_of [] = []
organizations_of (u ∷ us) = u.organization_id ∷ organizations_of us

-- `[...new Set(…)].sort()` of the organizations of the user; `text_le` is the order of texts.
unfoldable pub organization_ids : (String → String → Bool) → List User → List String
organization_ids text_le us = sort text_le (unique [] (organizations_of us))

-- `epochs.size === 1`: there is an epoch, the one of all.
unfoldable pub common_epoch : List User → Option ℕ
common_epoch [] = none
common_epoch (u ∷ us) =
    if any (λ (v : User). not (v.authentication_epoch == u.authentication_epoch)) us
    then none
    else some u.authentication_epoch

abbrev pub system_event : String → String → String → String → AuditRecord
system_event org action entity_type entity_id = event org none action entity_type (some entity_id)

-- What a change of a user's authentication does to the store.
unfoldable pub reauthenticate :
    (String → String → Bool)
    → String
    → String
    → ℕ
    → (User → User)
    → IdentityStore
    → Answer (List String)
reauthenticate text_le user_id action now change s =
    let orgs = organization_ids text_le (filter (is_user user_id) s.users) in
    let t = revoke_pending_issuer_grants user_id orgs now s in
    (
      record t {
        users = update_if (is_user user_id) change t.users;
        user_sessions = update_if (is_open_of user_id) (revoke now) t.user_sessions;
        audit_records = t.audit_records ++ map (λ org. system_event org action "user" user_id) orgs;
      },
      done orgs,
    )

-- `approved` tells if the hash is an approved one.
unfoldable pub rotate_user_password :
    (String → String → Bool)
    → Bool
    → String
    → String
    → ℕ
    → SystemAudit
    → IdentityStore
    → Answer (List String)
rotate_user_password text_le approved user_id hash now audit s =
    if not approved || not audit.has_reason
    then (s, failed)
    else elim (common_epoch (filter (is_user user_id) s.users)) [
      | none ↦ (s, refused not_found)
      | some epoch ↦
          if not audit.is_auditable
          then (s, failed)
          else reauthenticate text_le user_id "identity.password_rotated" now
              (λ (u : User). record u { password_hash = hash; authentication_epoch = suc epoch }) s
    ]

-- Whether a membership is that of the last active owner.
abbrev pub is_last_owner : String → List User → User → Bool
is_last_owner user_id us m =
    is_active m && is_owner m.role && not (has_other_active_owner m.organization_id user_id us)

unfoldable pub disable_user :
    (String → String → Bool) → String → ℕ → SystemAudit → IdentityStore → Answer (List String)
disable_user text_le user_id now audit s =
    if not audit.has_reason
    then (s, failed)
    else elim (common_epoch (filter (is_user user_id) s.users)) [
      | none ↦ (s, refused not_found)
      | some epoch ↦
          if any (is_last_owner user_id s.users) (filter (is_user user_id) s.users)
          then (s, refused owner_continuity_required)
          else if not audit.is_auditable
          then (s, failed)
          else reauthenticate text_le user_id "identity.user_disabled" now
              (λ (u : User). record u { authentication_epoch = suc epoch; disabled_at = some now })
              s
    ]

-- What a change of one membership does to the store, its users apart; `key` is the text of the
-- organization and the user.
unfoldable pub reauthorize : String → String → String → String → ℕ → IdentityStore → IdentityStore
reauthorize org user_id key action now s =
    let t = revoke_pending_issuer_grants user_id (org ∷ []) now s in
    record t {
      user_sessions = update_if (is_open_in user_id org) (revoke now) t.user_sessions;
      audit_records = t.audit_records ++ system_event org action "membership" key ∷ [];
    }

unfoldable pub change_membership_role :
    String → String → String → Role → ℕ → SystemAudit → IdentityStore → Answer (Unit {0})
change_membership_role org user_id key role now audit s =
    if not audit.has_reason then (s, failed) else elim (find (is_member user_id org) s.users) [
      | none ↦ (s, refused not_found)
      | some m ↦
          if is_owner m.role
            && not (is_owner role)
            && is_active m
            && not (has_other_active_owner org user_id s.users)
          then (s, refused owner_continuity_required)
          else if not audit.is_auditable
          then (s, failed)
          else (
            record (reauthorize org user_id key "identity.membership_role_changed" now s) {
              users =
                  update_if (is_member user_id org)
                    (λ (u : User). record u {
                      role = role;
                      authorization_epoch = suc u.authorization_epoch;
                    })
                    s.users;
            },
            done tt,
          )
    ]

unfoldable pub remove_membership :
    String → String → String → ℕ → SystemAudit → IdentityStore → Answer (Unit {0})
remove_membership org user_id key now audit s =
    if not audit.has_reason then (s, failed) else elim (find (is_member user_id org) s.users) [
      | none ↦ (s, refused not_found)
      | some m ↦
          if is_owner m.role && is_active m && not (has_other_active_owner org user_id s.users)
          then (s, refused owner_continuity_required)
          else if not audit.is_auditable
          then (s, failed)
          else (
            record (reauthorize org user_id key "identity.membership_removed" now s) {
              users = filter (λ (u : User). not (is_member user_id org u)) s.users;
            },
            done tt,
          )
    ]
